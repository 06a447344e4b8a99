-- ===== src/Traffic/Absence.antt =====
-- How often a long absence of a device is told.
use matreshka_panel.Base.{
  ◌≡◌, ◌∙◌, refl, true, none, some, List, ◌∷◌, Time, Key, ◌==◌, select, get-update, get_sound,
  arith,
}
use matreshka_panel.Journal.Types.{EventType}
use matreshka_panel.Registry.{Registry, Device}
use matreshka_panel.People.Directory.{find_device}
use matreshka_panel.Monitoring.Services.{types, types-log}
use matreshka_panel.Traffic.Samples.{offline, Presence}
use matreshka_panel.Traffic.Facts.{aggregate, is_long_absent, missed, device_facts, fact_entry}

abbrev pub rows_of : Key → List Presence → List Presence
rows_of id rows = select (λ p. p.device_id == id) rows

module _ (d : Device) (now : Time) (rows : List Presence) (reg : Registry)
    (known : find_device d.id reg ≡ some d) (absent : aggregate (rows_of d.id rows) ≡ offline)
    (long : is_long_absent d.last_seen_at now ≡ true) (untold : d.absence_notified_at ≡ none) where
  device_facts-missed : device_facts d now rows reg ≡ missed d now reg
  unfolding device_facts
  device_facts-missed = ground (arith, absent, long, untold)

  abbrev told : Device
  told = record d { absence_notified_at = some now }

  find_device-missed : find_device d.id (missed d now reg) ≡ some told
  unfolding find_device missed
  find_device-missed =
      get-update (λ x. x.id == d.id) (λ x. x.id == d.id) _ reg.devices (λ x. refl)
      ∙ rw (known, get_sound (λ x. x.id == d.id) reg.devices d known)

  types-missed :
      types (missed d now reg).journal.events
      ≡ EventType.device_offline_long ∷ types reg.journal.events
  unfolding missed
  types-missed = types-log EventType.device_offline_long (fact_entry d now) now reg.journal

device_facts-told :
    (d : Device) (now before : Time) (rows : List Presence) (reg : Registry)
    → aggregate (rows_of d.id rows) ≡ offline
    → d.absence_notified_at ≡ some before
    → device_facts d now rows reg ≡ reg
unfolding device_facts
device_facts-told d now before rows reg absent told' = ground (arith, absent, told')

-- An active device is offline and was last seen at least 24 hours ago, and this was not told yet.
-- Then the journal gains one event, of the long absence, the device is marked with the time, and
-- looking at it again while it is still offline changes nothing.
pub absence_told_once :
    (d : Device) (now later : Time) (rows rows' : List Presence) (reg : Registry)
    → find_device d.id reg ≡ some d
    → aggregate (rows_of d.id rows) ≡ offline
    → is_long_absent d.last_seen_at now ≡ true
    → d.absence_notified_at ≡ none
    → aggregate (rows_of d.id rows') ≡ offline
    → (d' : Device) × (reg' : Registry) × (device_facts d now rows reg ≡ reg')
      × (find_device d.id reg' ≡ some d')
      × (d'.absence_notified_at ≡ some now)
      × (types reg'.journal.events ≡ EventType.device_offline_long ∷ types reg.journal.events)
      × (device_facts d' later rows' reg' ≡ reg')
absence_told_once d now later rows rows' reg known absent long untold still =
    let d' = told d now rows reg known absent long untold in
    (
      d',
      missed d now reg,
      device_facts-missed d now rows reg known absent long untold,
      find_device-missed d now rows reg known absent long untold,
      refl,
      types-missed d now rows reg known absent long untold,
      device_facts-told d' later now rows' (missed d now reg) still refl,
    )
