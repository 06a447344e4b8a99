-- ===== src/Http/Reading.antt =====
-- What a token reaches whose scopes are all for reading.
use matreshka_panel.Base.{
  &&-eq-true, ◌≡◌, ◌∙◌, refl, sym, ap, ℕ, Bool, true, false, not, ◌&&◌, ◌||◌, Option, some, List,
  [], ◌∷◌, Time, Key, String, if◌then◌else◌, ◌==◌, ==_iff, get, get_sound, All, arith, inl, inr,
  Bool-cases,
}
use matreshka_panel.Base.Text.{codes, text_eq, starts_with, ends_with, same_text, listed}
use matreshka_panel.Auth.Tables.{Db}
use matreshka_panel.Auth.Sessions.{Identity, by_token, authenticate}
use matreshka_panel.Auth.Tokens.{allowed_scopes, all_allowed}
use matreshka_panel.Http.Endpoints.{Endpoint, endpoints}
use matreshka_panel.Http.Guard.{under, is_get, either, required_scope, handled, serves, fetch}
use matreshka_panel.Http.Scopes.{same_codes, every_listed, listed_allowed}
use matreshka_panel.Http.Confinement.{handled_token, token_confined}

-- The paths for which a scope that ends in `:read` lets a request through that is no GET.
abbrev read_areas : List String
read_areas = "/api/v1/status" ∷ "/api/v1/traffic" ∷ "/api/v1/backups" ∷ "/api/v1/system" ∷ []

abbrev under_any : List String → String → Bool
under_any [] path = false
under_any (a ∷ as_) path = under a path || under_any as_ path

starts_with_refl : (cs : List ℕ) → starts_with cs cs ≡ true
unfolding starts_with
starts_with_refl [] = refl
starts_with_refl (c ∷ cs) = ground (arith, starts_with_refl cs, ==_iff c c)

same-under : (prefix path : String) → same_text path prefix ≡ true → under prefix path ≡ true
unfolding under
same-under prefix path h =
    ap (starts_with (codes prefix)) (same_codes path prefix h) ∙ starts_with_refl (codes prefix)

by_or : (a : Bool) → (a || true) ≡ true
by_or a = ground arith

-- A scope that can be given and ends in `:read`
unfoldable reads : String → Bool
unfolding ends_with
reads s = ends_with (codes ":read") (codes s) && listed allowed_scopes s

no_reads :
    All
      (λ s. reads s ≡ false)
      ("owner:session" ∷ "settings:write" ∷ "people:write" ∷ "routes:write" ∷ "operations:write"
        ∷ "engines:write" ∷ "tokens:write" ∷ "api:read" ∷ [])
unfolding reads ends_with
no_reads = (refl, (refl, (refl, (refl, (refl, (refl, (refl, (refl, tt))))))))

-- The tests of `required` in their order, as truth values
read_chain :
    (read status dashboard me people routes traffic backups operations settings engines tokens
      system : Bool)
    → read ≡ false
    → reads (
        if status
        then "status:read"
        else if dashboard
        then "owner:session"
        else if me
        then either read "settings:read" "settings:write"
        else if people
        then either read "people:read" "people:write"
        else if routes
        then either read "routes:read" "routes:write"
        else if traffic
        then "traffic:read"
        else if backups
        then "backups:read"
        else if operations
        then either read "operations:read" "operations:write"
        else if settings
        then either read "settings:read" "settings:write"
        else if engines
        then either read "engines:read" "engines:write"
        else if tokens
        then "tokens:write"
        else if system
        then "system:read"
        else "api:read")
      ≡ true
    → (status || (traffic || (backups || (system || false)))) ≡ true
read_chain read status dashboard me people routes traffic backups operations settings engines tokens
      system h good =
    ground (arith, h, good, no_reads)

read_area :
    (method path : String)
    → is_get method ≡ false
    → reads (required_scope method path) ≡ true
    → under_any read_areas path ≡ true
unfolding required_scope
read_area method path no_get h =
    let found =
      read_chain (is_get method) (same_text path "/api/v1/status")
        (same_text path "/api/v1/dashboard") (under "/api/v1/me" path)
        (under "/api/v1/people" path || under "/api/v1/devices" path) (under "/api/v1/routes" path)
        (under "/api/v1/traffic" path) (under "/api/v1/backups" path)
        (under "/api/v1/operations" path) (under "/api/v1/settings" path)
        (under "/api/v1/engines" path) (under "/api/v1/tokens" path) (under "/api/v1/system" path)
        no_get h in
    elim (Bool-cases (same_text path "/api/v1/status")) [
      | inl status ↦ rw (same-under "/api/v1/status" path status) refl
      | inr other ↦
          let rest = rw other at found in
          elim (Bool-cases (under "/api/v1/status" path)) [
            | inl status ↦ rw status refl
            | inr _ ↦ rw rest (by_or (under "/api/v1/status" path))
          ]
    ]

-- A pattern up to its first parameter
abbrev pub literal : List ℕ → List ℕ
literal [] = []
literal (c ∷ cs) = if c == b':' then [] else c ∷ literal cs

-- The texts differ at a place that both have.
abbrev apart : List ℕ → List ℕ → Bool
apart [] ys = false
apart (x ∷ xs) [] = false
apart (x ∷ xs) (y ∷ ys) = not (x == y) || apart xs ys

apart_prefixes :
    (a b cs : List ℕ) → apart a b ≡ true → starts_with a cs ≡ true → starts_with b cs ≡ false
unfolding starts_with
apart_prefixes [] b cs far h = cc
apart_prefixes (x ∷ a) [] cs far h = cc
apart_prefixes (x ∷ a) (y ∷ b) [] far h = cc
apart_prefixes (x ∷ a) (y ∷ b) (c ∷ cs) far h =
    ground (arith, far, h, apart_prefixes a b cs, ==_iff x y, ==_iff x c, ==_iff y c)

abbrev all_apart : List ℕ → List String → Bool
all_apart cs [] = true
all_apart cs (a ∷ as_) = apart cs (codes a) && all_apart cs as_

under_none :
    (cs : List ℕ) (areas : List String) (path : String)
    → all_apart cs areas ≡ true
    → starts_with cs (codes path) ≡ true
    → under_any areas path ≡ false
unfolding under
under_none cs [] path far h = refl
under_none cs (a ∷ as_) path far h =
    ground (arith, far, apart_prefixes cs (codes a) (codes path), h, under_none cs as_ path)

-- Either no handler that a token writes with, or none at the paths where reading is enough.
abbrev is_apart : Endpoint → Bool
is_apart e = e.is_public || is_get e.method || all_apart (literal (codes e.pattern)) read_areas

abbrev every : (Endpoint → Bool) → List Endpoint → Bool
every p [] = true
every p (e ∷ es) = p e && every p es

checked_row :
    (p q : Endpoint → Bool) (es : List Endpoint) (e : Endpoint)
    → every p es ≡ true
    → get q es ≡ some e
    → p e ≡ true
unfolding get
checked_row p q [] e h at = cc
checked_row p q (x ∷ es) e h at = ground (arith, h, at, checked_row p q es e)

endpoints_apart : every is_apart endpoints ≡ true
endpoints_apart = refl

third : (a b c : Bool) → a ≡ false → b ≡ false → (a || b || c) ≡ true → c ≡ true
third a b c ha hb h = ground (arith, ha, hb, h)

reads_lem :
    (scopes : List String) (s : String)
    → all_allowed scopes ≡ true
    → All (λ t. ends_with (codes ":read") (codes t) ≡ true) scopes
    → listed scopes s ≡ true
    → reads s ≡ true
unfolding reads
reads_lem scopes s allowed reading there =
    rw
      (
        every_listed (ends_with (codes ":read")) scopes s reading there,
        listed_allowed scopes s allowed there,
      )
      refl

-- A token with scopes that can be given, all of which end in `:read`, reaches no handler but those of
-- GET requests and those that anybody reaches, in the table of the program. A pattern of the table
-- matches only paths that begin with its text up to the first parameter.
pub read_token_reads :
    (matches : String → String → Bool) (hash : Key → Key) (method path : String)
    (session : Option Key) (bearer : Option (Option Key)) (now : Time) (db : Db) (id : Key)
    (scopes : List String) (e : Endpoint) (who : Option Identity)
    → ((p u : String) → matches p u ≡ true → starts_with (literal (codes p)) (codes u) ≡ true)
    → all_allowed scopes ≡ true
    → All (λ s. ends_with (codes ":read") (codes s) ≡ true) scopes
    → (authenticate hash session bearer now db).1 ≡ some (by_token id scopes)
    → (fetch matches hash endpoints method path session bearer now db).1 ≡ handled e who
    → e.is_public ≡ false
    → is_get method ≡ true
read_token_reads matches hash method path session bearer now db id scopes e who literal_first
      allowed reading known h closed =
    let at =
      handled_token matches hash endpoints method path session bearer now db id scopes e who known h
        closed in
    let granted =
      token_confined matches hash endpoints method path session bearer now db id scopes e who
        allowed known h closed in
    elim (Bool-cases (is_get method)) [
      | inl read ↦ read
      | inr write ↦
          let (same, hit) =
            &&-eq-true (same_text e.method method) (matches e.pattern path)
              (get_sound (serves matches method path) endpoints e at.0) in
          let writes : is_get e.method ≡ false =
            ap (λ cs. text_eq cs (codes "GET")) (same_codes e.method method same) ∙ write in
          let far =
            third e.is_public (is_get e.method) (all_apart (literal (codes e.pattern)) read_areas)
              closed writes
              (checked_row is_apart (serves matches method path) endpoints e endpoints_apart
                at.0) in
          let inside = read_area method path write (reads_lem scopes _ allowed reading granted.0) in
          let wrong : false ≡ true =
            sym (
              under_none (literal (codes e.pattern)) read_areas path far
                (literal_first e.pattern path hit))
            ∙ inside in
          cc
    ]
