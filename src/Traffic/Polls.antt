-- ===== src/Traffic/Polls.antt =====
-- The presence of a device over any sequence of polls of Hysteria.
use matreshka_panel.Base.{
  ℕ, zero, suc, ◌≡◌, refl, Option, none, some, List, [], ◌∷◌, Time, Key, if◌then◌else◌, leb, arith,
  get-upsert_self, ==_refl,
}
use matreshka_panel.Registry.{hysteria}
use matreshka_panel.Traffic.Samples.{
  Status, online, offline, unknown, Signal, by_connections, Presence,
}
use matreshka_panel.Traffic.Presence.{
  presence, is_presence, save_presence, change_time, hysteria_presence, misses_of, status_of,
  last_active_of,
}

-- The polls of one device, newest first: its connections and the time.
unfoldable pub polled_presence : Key → List (ℕ × Time) → List Presence → List Presence
unfolding hysteria_presence
polled_presence id [] rows = rows
polled_presence id ((n, now) ∷ h) rows = hysteria_presence id n now (polled_presence id h rows)

-- The independent description: online while the newest poll finds connections, offline when the two
-- newest find none, and one poll without connections changes nothing.
unfoldable pub presence_after : List (ℕ × Time) → Status
presence_after [] = unknown
presence_after ((suc n, now) ∷ h) = online
presence_after ((zero, now) ∷ []) = unknown
presence_after ((zero, now) ∷ (zero, before) ∷ h) = offline
presence_after ((zero, now) ∷ (suc n, before) ∷ h) = online

-- The polls without connections since the last one with some.
unfoldable pub misses_in_row : List (ℕ × Time) → ℕ
misses_in_row [] = 0
misses_in_row ((zero, now) ∷ h) = suc (misses_in_row h)
misses_in_row ((suc n, now) ∷ h) = 0

unfoldable pub last_connected : List (ℕ × Time) → Option Time
last_connected [] = none
last_connected ((zero, now) ∷ h) = last_connected h
last_connected ((suc n, now) ∷ h) = some now

presence-save_presence :
    (id : Key) (s : Status) (signal : Signal) (now : Time) (c : Option ℕ) (m : ℕ) (a : Option Time)
    (rows : List Presence)
    → presence id hysteria (save_presence id hysteria s signal now c m a rows)
      ≡ some (record {
        device_id = id;
        engine = hysteria;
        status = s;
        signal = signal;
        connections = c;
        misses = m;
        last_active_at = a;
        observed_at = now;
        changed_at = change_time (presence id hysteria rows) s now;
      })
unfolding presence save_presence
presence-save_presence id s signal now c m a rows =
    get-upsert_self (is_presence id hysteria) _ rows (rw (==_refl id) refl)

record Tracks (h : List (ℕ × Time)) (p : Option Presence) : Type 0 where
  status : status_of p ≡ presence_after h
  misses : misses_of p ≡ misses_in_row h
  last : last_active_of p ≡ last_connected h

missed :
    (now : Time) (h : List (ℕ × Time))
    → (if leb 2 (suc (misses_in_row h)) then offline else presence_after h)
      ≡ presence_after ((zero, now) ∷ h)
unfolding misses_in_row presence_after
missed now [] = refl
missed now ((zero, before) ∷ h) = ground arith
missed now ((suc n, before) ∷ h) = refl

polled-Tracks :
    (id : Key) (h : List (ℕ × Time)) (rows : List Presence)
    → presence id hysteria rows ≡ none
    → Tracks h (presence id hysteria (polled_presence id h rows))
unfolding polled_presence hysteria_presence presence_after misses_in_row last_connected
polled-Tracks id [] rows new = record { status = rw new; misses = rw new; last = rw new }
polled-Tracks id ((suc n, now) ∷ h) rows new =
    let e =
      presence-save_presence id online by_connections now (some (suc n)) 0 (some now)
        (polled_presence id h rows) in
    record { status = ground (arith, e); misses = ground (arith, e); last = ground (arith, e) }
polled-Tracks id ((zero, now) ∷ h) rows new =
    let t = polled-Tracks id h rows new in
    let p = presence id hysteria (polled_presence id h rows) in
    let e =
      presence-save_presence id (if leb 2 (suc (misses_of p)) then offline else status_of p)
        by_connections now (some 0) (suc (misses_of p)) (last_active_of p)
        (polled_presence id h rows) in
    record {
      status = rw (e, t.misses, t.status) (missed now h);
      misses = rw (e, t.misses) refl;
      last = rw e (t.last);
    }

-- A device without a presence row is polled at Hysteria any number of times. Then it is shown online
-- when the newest poll found connections or only the one before it did, offline from the second poll
-- in a row without connections on, and unknown before it had any; its row counts the misses in a row
-- and holds the time of the newest poll with connections.
pub polled_presence_follows :
    (id : Key) (h : List (ℕ × Time)) (rows : List Presence)
    → presence id hysteria rows ≡ none
    → let p = presence id hysteria (polled_presence id h rows) in
      (status_of p ≡ presence_after h)
      × (misses_of p ≡ misses_in_row h)
      × (last_active_of p ≡ last_connected h)
polled_presence_follows id h rows new =
    let t = polled-Tracks id h rows new in (t.status, t.misses, t.last)
