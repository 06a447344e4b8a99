-- ===== src/EngineConfig/Active.antt =====
-- That each engine has one configuration in use, and what a rollback brings back.
use matreshka_panel.Base.{
  ℕ, suc, ◌≤◌, ◌<◌, ◌≡◌, ◌∙◌, refl, sym, ap, subst, Bool, true, ◌&&◌, Option, none, some, List, [],
  ◌∷◌, ◌++◌, Time, Key, ◌==◌, get, update, count, count-append, get-append, arith, inl, inr,
  Bool-cases, &&-eq-true, Option-cases,
}
use matreshka_panel.Journal.Record.{Ident}
use matreshka_panel.Registry.{
  Engine, hysteria, xray, engine_eq, ok, require, found, bind_ok, require_ok, found_ok,
}
use matreshka_panel.EngineConfig.Template.{Setting, render}
use matreshka_panel.EngineConfig.Configs.{
  Config, Db, in_use, is_version, active_config, last_version, Reason, to_roll_back, new_config,
  retired, written, preview, usable, apply, rollback,
}

engine_eq_refl : (e : Engine) → engine_eq e e ≡ true
engine_eq_refl hysteria = refl
engine_eq_refl xray = refl

engine_eq_trans :
    (a b c : Engine) → engine_eq a b ≡ true → engine_eq a c ≡ true → engine_eq b c ≡ true
engine_eq_trans a b c ab ac = ground arith

-- Per engine one configuration in use at most, and no version twice.
abbrev pub WellFormed : List Config → Type 0
WellFormed cs = (e : Engine) → (count (in_use e) cs ≤ 1) × ((v : ℕ) → count (is_version e v) cs ≤ 1)

retired_unused : (e : Engine) (cs : List Config) → get (in_use e) (retired e cs) ≡ none
unfolding get update
retired_unused e [] = refl
retired_unused e (c ∷ cs) = ground (arith, retired_unused e cs)

count-retired :
    (e other : Engine) (cs : List Config)
    → count (in_use other) (retired e cs) ≤ count (in_use other) cs
unfolding count update
count-retired e other [] = omega arith
count-retired e other (c ∷ cs) = ground (arith, count-retired e other cs)

count_version-retired :
    (e other : Engine) (v : ℕ) (cs : List Config)
    → count (is_version other v) (retired e cs) ≡ count (is_version other v) cs
unfolding count update
count_version-retired e other v [] = refl
count_version-retired e other v (c ∷ cs) = ground (arith, count_version-retired e other v cs)

unused_version :
    (e : Engine) (v : ℕ) (cs : List Config) → last_version e cs < v → count (is_version e v) cs ≡ 0
unfolding count last_version
unused_version e v [] h = refl
unused_version e v (c ∷ cs) h = ground (arith, h, unused_version e v cs)

retired_none :
    (e other : Engine) (cs : List Config)
    → engine_eq e other ≡ true
    → count (in_use other) (retired e cs) ≡ 0
unfolding count update
retired_none e other [] h = refl
retired_none e other (c ∷ cs) h =
    ground (arith, h, retired_none e other cs h, engine_eq_trans c.engine e other)

engine_eq→eq : (a b : Engine) → engine_eq a b ≡ true → a ≡ b
engine_eq→eq a b h = ground arith

new_version_free :
    (e other : Engine) (v : ℕ) (cs : List Config)
    → engine_eq e other ≡ true
    → (suc (last_version e cs) == v) ≡ true
    → count (is_version other v) cs ≡ 0
new_version_free e other v cs same at =
    subst (λ x. count (is_version x v) cs ≡ 0) (engine_eq→eq e other same)
      (unused_version e v cs (ground (arith, at)))

abbrev pub with_config : Key → Engine → List ℕ → Key → Time → List Config → List Config
with_config id e template hash now cs =
    retired e cs ++ new_config id e (suc (last_version e cs)) template hash now ∷ []

module _ (id : Key) (e : Engine) (template : List ℕ) (hash : Key) (now : Time)
    (cs : List Config) where
  in_use-with :
      (other : Engine)
      → count (in_use other) cs ≤ 1
      → count (in_use other) (with_config id e template hash now cs) ≤ 1
  unfolding count
  in_use-with other h =
      let new = new_config id e (suc (last_version e cs)) template hash now in
      let total = count-append (in_use other) (retired e cs) (new ∷ []) in
      elim (Bool-cases (engine_eq e other)) [
        | inl same ↦ ground (arith, total, retired_none e other cs same, same)
        | inr apart ↦ ground (arith, total, count-retired e other cs, h, apart)
      ]

  version-with :
      (other : Engine) (v : ℕ)
      → count (is_version other v) cs ≤ 1
      → count (is_version other v) (with_config id e template hash now cs) ≤ 1
  unfolding count
  version-with other v h =
      let new = new_config id e (suc (last_version e cs)) template hash now in
      let total = count-append (is_version other v) (retired e cs) (new ∷ []) in
      let kept = count_version-retired e other v cs in
      let free = new_version_free e other v cs in
      elim (Bool-cases (engine_eq e other && suc (last_version e cs) == v)) [
        | inl hit ↦
            let (same, at) = &&-eq-true (engine_eq e other) (suc (last_version e cs) == v) hit in
            ground (arith, total, kept, free same at, hit)
        | inr miss ↦ ground (arith, total, kept, h, miss)
      ]

  active-with :
      get (in_use e) (with_config id e template hash now cs)
      ≡ some (new_config id e (suc (last_version e cs)) template hash now)
  unfolding get
  active-with =
      get-append (in_use e) (retired e cs)
        (new_config id e (suc (last_version e cs)) template hash now ∷ [])
      ∙ rw (retired_unused e cs, engine_eq_refl e) refl

-- What `apply` writes when it succeeds.
applied :
    (s : Setting) (hashed : List ℕ → Key) (agent : List ℕ → Bool) (reason : Reason) (id : Key)
    (e : Engine) (template : List ℕ) (actor : Ident) (now : Time) (db db' : Db)
    → apply s hashed agent reason id e template actor now db ≡ ok db'
    → (p : List ℕ × Key) × (usable (preview s hashed e template) ≡ some p)
      × (agent p.0 ≡ true)
      × (db'.configs ≡ with_config id e template p.1 now db.configs)
unfolding apply written
applied s hashed agent reason id e template actor now db db' h =
    let (p, usable_text, h1) = bind_ok (found (usable (preview s hashed e template)) 400) _ db' h in
    let (u, placed, h2) = bind_ok (require (agent p.0) 500) _ db' h1 in
    let same : written reason id e template p.1 actor now db ≡ db' = ground (arith, h2) in
    (
      p,
      found_ok (usable (preview s hashed e template)) 400 p usable_text,
      require_ok (agent p.0) 500 u placed,
      sym (ap (λ x. x.configs) same),
    )

usable_same : (o : Option (List ℕ × Key)) (p : List ℕ × Key) → usable o ≡ some p → o ≡ some p
usable_same none p h = cc
usable_same (some ([], k)) p h = cc
usable_same (some (c ∷ cs, k)) p h = h

preview_lem :
    (s : Setting) (hashed : List ℕ → Key) (e : Engine) (template : List ℕ) (p : List ℕ × Key)
    → preview s hashed e template ≡ some p
    → (render s e template ≡ some p.0) × (p.1 ≡ hashed p.0)
unfolding preview
preview_lem s hashed e template p h = elim (Option-cases (render s e template)) [
  | inl fails ↦ let wrong : none ≡ some p = sym (rw (fails, preview) refl) ∙ h in cc
  | inr (text, there) ↦
      let same : some (text, hashed text) ≡ some p = sym (rw (there, preview) refl) ∙ h in
      let text_same : text ≡ p.0 = ground (arith, same) in
      let hash_same : hashed text ≡ p.1 = ground (arith, same) in
      (there ∙ ap some text_same, sym hash_same ∙ ap hashed text_same)
]

WellFormed-with :
    (id : Key) (e : Engine) (template : List ℕ) (hash : Key) (now : Time) (cs : List Config)
    → WellFormed cs
    → WellFormed (with_config id e template hash now cs)
WellFormed-with id e template hash now cs fine other = (
  in_use-with id e template hash now cs other (fine other).0,
  λ v. version-with id e template hash now cs other v ((fine other).1 v),
)

-- Where each engine has one configuration in use at most and no version twice, this holds after a
-- call of `apply` that succeeds. Then the configuration in use is the new one, which the privileged
-- agent has put in place, under a version that the engine did not have.
pub apply_one_active :
    (s : Setting) (hashed : List ℕ → Key) (agent : List ℕ → Bool) (reason : Reason) (id : Key)
    (e : Engine) (template : List ℕ) (actor : Ident) (now : Time) (db db' : Db)
    → WellFormed db.configs
    → apply s hashed agent reason id e template actor now db ≡ ok db'
    → WellFormed db'.configs
      × ((text : List ℕ) × (c : Config) × (agent text ≡ true)
          × (render s e template ≡ some text)
          × (active_config e db' ≡ some c)
          × (c.template ≡ template)
          × (c.rendered_hash ≡ hashed text)
          × (count (is_version e c.version) db.configs ≡ 0))
unfolding active_config
apply_one_active s hashed agent reason id e template actor now db db' fine h =
    let (p, shown, placed, same) = applied s hashed agent reason id e template actor now db db' h in
    let (text, hash_same) =
      preview_lem s hashed e template p (usable_same (preview s hashed e template) p shown) in
    let version = suc (last_version e db.configs) in
    (
      subst WellFormed (sym same) (WellFormed-with id e template p.1 now db.configs fine),
      (
        p.0,
        new_config id e version template p.1 now,
        placed,
        text,
        ap (get (in_use e)) same ∙ active-with id e template p.1 now db.configs,
        refl,
        hash_same,
        unused_version e version db.configs (omega arith),
      ),
    )

-- A rollback that succeeds puts the template of that version of the engine in use again, under a
-- version that the engine did not have.
pub rollback_reuses :
    (s : Setting) (hashed : List ℕ → Key) (agent : List ℕ → Bool) (id : Key) (e : Engine)
    (version : ℕ) (actor : Ident) (now : Time) (db db' : Db)
    → WellFormed db.configs
    → rollback s hashed agent id e version actor now db ≡ ok db'
    → WellFormed db'.configs
      × ((row c : Config) × (get (is_version e version) db.configs ≡ some row)
          × (active_config e db' ≡ some c)
          × (c.template ≡ row.template)
          × (count (is_version e c.version) db.configs ≡ 0))
unfolding rollback
rollback_reuses s hashed agent id e version actor now db db' fine h =
    let (row, there, h1) = bind_ok (found (get (is_version e version) db.configs) 404) _ db' h in
    let (kept, (text, c, placed, shown, used, same, hash, new)) =
      apply_one_active s hashed agent to_roll_back id e row.template actor now db db' fine h1 in
    (
      kept,
      (row, c, found_ok (get (is_version e version) db.configs) 404 row there, used, same, new),
    )
