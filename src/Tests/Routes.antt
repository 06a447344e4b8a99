-- ===== src/Tests/Routes.antt =====
-- The routing rules on concrete tables.
use matreshka_panel.Base.{
  ℕ, suc, ◌+◌, ◌≡◌, refl, true, false, List, [], ◌∷◌, map, get, arith, update,
}
use matreshka_panel.Journal.Record.{empty, word, audit}
use matreshka_panel.Registry.{Result, ok, err}
use matreshka_panel.Routes.Draft.{
  Action, Matcher, Source, Rule, Revision, Db, draft, in_order, insert, largest_version, lift,
  place, terminal, local, valid_value, labels, domain_text,
}
use matreshka_panel.Routes.Edit.{reorder, locals_in_order, noted, ids_of}
use matreshka_panel.Routes.Publish.{revision, published, publish, draft_rules, rollback, dirty}
use matreshka_panel.Routes.History.{content, publish_publishes, rollback_restores}

abbrev everything_else : Rule
everything_else = record {
  id = 3;
  position = 2;
  action = Action.proxy;
  matcher = Matcher.suffix;
  value = "*";
  source = Source.system;
  locked = true;
  enabled = true;
  created_at = 0;
  updated_at = 0;
}

abbrev bank : Rule
bank = record everything_else {
  id = 1;
  position = 0;
  action = Action.direct;
  value = "bank.example";
  source = Source.user;
  locked = false;
}

abbrev video : Rule
video = record bank { id = 2; position = 1; action = Action.proxy; value = "video.example" }

abbrev first_revision : Revision
first_revision = record {
  id = 50;
  version = 1;
  rules = bank ∷ everything_else ∷ [];
  note = "";
  created_at = 0;
  actor = word "owner";
}

abbrev three_rules : Db
three_rules = record {
  drafts = bank ∷ video ∷ everything_else ∷ [];
  revisions = first_revision ∷ [];
  active_version = 1;
  journal = empty;
}

suffix_is_valid : valid_value (λ c. false) Matcher.suffix "1.2-3" ≡ true
unfolding valid_value labels domain_text
suffix_is_valid = ground arith

publish_publishes_example :
    (db' : Db) × (publish 51 "" (word "owner") draft_rules (λ i. 60 + i) 1000 three_rules ≡ ok db')
    × (published db' ≡ ok (draft three_rules))
    × (db'.active_version ≡ suc (largest_version three_rules.revisions))
    × (draft db' ≡ draft three_rules)
    × (dirty db' ≡ ok false)
    × (revision 1 db' ≡ revision 1 three_rules)
unfolding draft in_order insert largest_version
publish_publishes_example =
    publish_publishes 51 "" (word "owner") (λ i. 60 + i) 1000 1 three_rules (omega arith)
      (omega arith)

rollback_restores_example :
    (db' : Db) × (rollback 51 "back" 1 (word "owner") (λ i. 60 + i) 1000 three_rules ≡ ok db')
    × (published db' ≡ ok first_revision.rules)
    × (db'.active_version ≡ suc (largest_version three_rules.revisions))
    × (map content (draft db') ≡ map content first_revision.rules)
    × (revision 1 db' ≡ revision 1 three_rules)
unfolding revision get largest_version
rollback_restores_example =
    rollback_restores 51 "back" 1 (word "owner") (λ i. 60 + i) 1000 1 three_rules first_revision
      refl (omega arith) (omega arith)

abbrev after_reorder : Result Db → List ℕ
after_reorder (ok db) = ids_of (draft db)
after_reorder (err status) = []

-- A list that names one rule twice and leaves one out is accepted, and the rule left out then
-- stands after the rule for everything else.
reorder_accepts_duplicates :
    after_reorder (reorder (1 ∷ 1 ∷ 3 ∷ []) (word "owner") 1000 three_rules) ≡ 1 ∷ 3 ∷ 2 ∷ []
unfolding reorder draft in_order insert lift place terminal local locals_in_order noted audit get
    update
reorder_accepts_duplicates = refl
