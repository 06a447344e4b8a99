-- ===== src/Tests/Journal.antt =====
-- The pages of a journal with three events.
use matreshka_panel.Base.{
  ℕ, suc, ◌≡◌, ◌≤◌, ◌&&◌, refl, true, none, some, List, [], ◌∷◌, count, length, arith,
}
use matreshka_panel.Journal.Types.{EventType, Category, Kind, Severity}
use matreshka_panel.Journal.Json.{object, end}
use matreshka_panel.Journal.Record.{Event, Journal}
use matreshka_panel.Journal.Listing.{Query, Scope, passes, read_all}
use matreshka_panel.Journal.Paging.{has_id}
use matreshka_panel.Journal.Order.{NewestFirst, pages_complete}

abbrev event : ℕ → ℕ → Severity → Event
event id at severity = record {
  id = id;
  type = EventType.service_unavailable;
  category = Category.system;
  kind = Kind.is_incident;
  severity = severity;
  outcome = none;
  important = true;
  source = "service";
  actor = none;
  subject_type = none;
  subject_id = none;
  operation_id = none;
  audit_id = none;
  payload = object end;
  occurred_at = at;
}

abbrev three : Journal
three = record {
  events = event 3 200 Severity.error ∷ event 2 300 Severity.error ∷ event 1 100 Severity.info ∷ [];
  last_event = 3;
  audits = [];
  last_audit = 0;
}

abbrev errors : Query
errors = record {
  scope = some Scope.errors_only;
  categories = [];
  found = λ e. true;
  before = none;
  limit = some 1;
}

three_once : (id : ℕ) → count (has_id id) three.events ≤ 1
unfolding count
three_once id = ground arith

pages_complete_example :
    (es : List Event) × (read_all (suc (length es)) errors three ≡ some es)
    × NewestFirst es
    × (count (λ e. e.important) es
        ≡ count (λ e. (e.important && errors.found e) && passes errors e) three.events)
unfolding count
pages_complete_example = pages_complete errors three (λ e. e.important) three_once refl refl
