-- ===== src/Operations/Once.antt =====
-- What a confirmation permits: the previewed action and payload, once, in time.
use matreshka_panel.Base.{
  ℕ, ◌≡◌, ◌≢◌, ◌∙◌, refl, ap, sym, Bool, true, false, none, some, Time, Key, ◌==◌, get, get-update,
  get_sound, arith, Option-cases, inl, inr,
}
use matreshka_panel.Journal.Record.{Ident, Journal}
use matreshka_panel.Registry.{Registry, Result, ok, err, ◌>>◌, require}
use matreshka_panel.Operations.Actions.{Action, Payload}
use matreshka_panel.Operations.Validate.{validate}
use matreshka_panel.Operations.Run.{Confirmation, Db, is_usable, confirmed, confirm}

-- The row of a confirmation after it was used.
get-confirmed :
    (id : Key) (action : Action) (payload : Payload) (op : Key) (actor : Ident) (now : Time)
    (db : Db) (c : Confirmation)
    → get (λ x. x.id == id) db.confirmations ≡ some c
    → get (λ x. x.id == id) (confirmed id action payload op actor now db).confirmations
      ≡ some (record c { used_at = some now })
unfolding confirmed
get-confirmed id action payload op actor now db c e =
    get-update (λ x. x.id == id) (λ x. x.id == id) (λ x. record x { used_at = some now })
      db.confirmations (λ x. refl)
    ∙ rw (e, get_sound (λ x. x.id == id) db.confirmations c e)

-- What a guarded call returns.
guarded_ok :
    {A : Type 0} (b : Bool) (status : ℕ) (r : Result (Unit {0})) (x y : A)
    → (require b status >> (r >> ok x)) ≡ ok y
    → x ≡ y
guarded_ok true status (ok tt) x y e = ground (arith, e)
guarded_ok true status (err n) x y e = cc
guarded_ok false status r x y e = cc

confirm-confirmed :
    (hash : Action → Payload → Key) (id op : Key) (action : Action) (payload : Payload)
    (actor : Ident) (now : Time) (db db' : Db) (c : Confirmation)
    → get (λ x. x.id == id) db.confirmations ≡ some c
    → confirm hash id action payload op actor now db ≡ ok db'
    → confirmed id action payload op actor now db ≡ db'
unfolding confirm
confirm-confirmed hash id op action payload actor now db db' c there e =
    guarded_ok (is_usable hash action payload now c) 409
      (validate action payload db.versions db.registry) _ db' (sym (rw (there, confirm) refl) ∙ e)

confirm-missing :
    (hash : Action → Payload → Key) (id op : Key) (action : Action) (payload : Payload)
    (actor : Ident) (now : Time) (db : Db)
    → get (λ x. x.id == id) db.confirmations ≡ none
    → confirm hash id action payload op actor now db ≡ err 409
unfolding confirm
confirm-missing hash id op action payload actor now db e = rw (e, confirm) refl

confirm-used :
    (hash : Action → Payload → Key) (id op : Key) (action : Action) (payload : Payload)
    (actor : Ident) (now used : Time) (db : Db) (c : Confirmation)
    → get (λ x. x.id == id) db.confirmations ≡ some (record c { used_at = some used })
    → confirm hash id action payload op actor now db ≡ err 409
unfolding confirm
confirm-used hash id op action payload actor now used db c e = rw (e, confirm) refl

err-ne-ok : {A : Type 0} (status : ℕ) (a : A) → err status ≢ ok a
err-ne-ok status a e = cc

-- A confirmation that has been used is refused with 409 from then on, for every action and payload.
pub confirmation_used_once :
    (hash : Action → Payload → Key) (id op op' : Key) (action action' : Action)
    (payload payload' : Payload) (actor actor' : Ident) (now later : Time) (db db' : Db)
    → confirm hash id action payload op actor now db ≡ ok db'
    → confirm hash id action' payload' op' actor' later db' ≡ err 409
confirmation_used_once hash id op op' action action' payload payload' actor actor' now later db db'
      e =
    elim (Option-cases (get (λ x. x.id == id) db.confirmations)) [
      | inl missing ↦ absurd (
          err-ne-ok 409 db'
            (sym (confirm-missing hash id op action payload actor now db missing) ∙ e))
      | inr (c, there) ↦
          let same = confirm-confirmed hash id op action payload actor now db db' c there e in
          confirm-used hash id op' action' payload' actor' later now db' c (
            ap (λ x. get (λ y. y.id == id) x.confirmations) (sym same)
            ∙ get-confirmed id action payload op actor now db c there)
    ]
