-- ===== src/Tests/Traffic.antt =====
-- Traffic and presence on concrete tables.
use matreshka_panel.Base.{ℕ, ◌+◌, ◌≡◌, refl, get, select, none, some, List, [], ◌∷◌, Time}
use matreshka_panel.Journal.Types.{EventType}
use matreshka_panel.Monitoring.Services.{types}
use matreshka_panel.Traffic.Facts.{aggregate, device_facts}
use matreshka_panel.Traffic.Absence.{absence_told_once}
use matreshka_panel.Registry.{Engine, Device, Registry}
use matreshka_panel.People.Directory.{find_device}
use matreshka_panel.Traffic.Samples.{Db, Sample, five_minutes, offline, Presence, Signal}
use matreshka_panel.Traffic.Record.{cursor}
use matreshka_panel.Traffic.Volume.{volume, of_device, Amount, amount_of}
use matreshka_panel.Traffic.Compact.{compact}
use matreshka_panel.Traffic.Conservation.{compact_conserves}
use matreshka_panel.Traffic.Metered.{metered, counted, newest, marked, metered_counts}
use matreshka_panel.Traffic.Presence.{presence, status_of, misses_of, last_active_of}
use matreshka_panel.Traffic.Polls.{
  polled_presence, presence_after, misses_in_row, last_connected, polled_presence_follows,
}
use matreshka_panel.Tests.Tables.{one_device, laptop}

-- 5-minute rows of two moments of one hour, 100 days before the compaction at `later`.
abbrev old_samples : List Sample
old_samples =
    (record {
      bucket = five_minutes;
      bucket_at = 300000;
      person_id = 1;
      device_id = 7;
      engine = Engine.xray;
      upload = 5;
      download = 50;
    })
    ∷ (record {
      bucket = five_minutes;
      bucket_at = 600000;
      person_id = 1;
      device_id = 7;
      engine = Engine.xray;
      upload = 6;
      download = 60;
    })
    ∷ []

abbrev later : Time
later = 8640000000

compact_conserves_example :
    volume (of_device 7 Engine.xray) (amount_of Amount.uploaded) (compact later old_samples)
    ≡ volume (of_device 7 Engine.xray) (amount_of Amount.uploaded) old_samples
compact_conserves_example = compact_conserves 7 Engine.xray Amount.uploaded later old_samples

abbrev no_traffic : Db
no_traffic = record {
  registry = one_device;
  monitors = [];
  cursors = [];
  samples = [];
  presence = [];
}

-- The engine restarts between the second and the third reading; newest first.
abbrev readings : List (ℕ × ℕ × Time)
readings = (30, 5, 900000) ∷ (250, 20, 600000) ∷ (100, 10, 300000) ∷ []

readings_counted :
    (counted Amount.uploaded readings ≡ 280) × (counted Amount.downloaded readings ≡ 25)
unfolding counted
readings_counted = (refl, refl)

metered_counts_example :
    let after = metered 7 Engine.xray readings no_traffic in
    (volume (of_device 7 Engine.xray) (amount_of Amount.downloaded) after.samples
      ≡ volume (of_device 7 Engine.xray) (amount_of Amount.downloaded) no_traffic.samples
        + counted Amount.downloaded readings)
    × (marked Amount.downloaded (cursor 7 Engine.xray after) ≡ newest Amount.downloaded readings)
unfolding find_device cursor get
metered_counts_example =
    metered_counts Amount.downloaded 7 Engine.xray laptop readings no_traffic refl refl

-- Two polls without connections after one with two.
abbrev gone : List (ℕ × Time)
gone = (0, 180000) ∷ (0, 120000) ∷ (2, 60000) ∷ []

gone_offline : presence_after gone ≡ offline
unfolding presence_after
gone_offline = refl

polled_presence_follows_example :
    let p = presence 7 Engine.hysteria (polled_presence 7 gone []) in
    (status_of p ≡ presence_after gone)
    × (misses_of p ≡ misses_in_row gone)
    × (last_active_of p ≡ last_connected gone)
unfolding presence get
polled_presence_follows_example = polled_presence_follows 7 gone [] refl

abbrev unused_laptop : Device
unused_laptop = record laptop { first_seen_at = some 0; last_seen_at = some 0 }

abbrev unused : Registry
unused = record one_device { devices = unused_laptop ∷ [] }

abbrev away : List Presence
away =
    (record {
      device_id = 7;
      engine = Engine.xray;
      status = offline;
      signal = Signal.by_traffic;
      connections = none;
      misses = 0;
      last_active_at = some 0;
      observed_at = 86400000;
      changed_at = 120000;
    })
    ∷ []

absence_told_once_example :
    (d' : Device) × (reg' : Registry) × (device_facts unused_laptop 86400000 away unused ≡ reg')
    × (find_device 7 reg' ≡ some d')
    × (d'.absence_notified_at ≡ some 86400000)
    × (types reg'.journal.events ≡ EventType.device_offline_long ∷ types unused.journal.events)
    × (device_facts d' 86460000 away reg' ≡ reg')
unfolding find_device get aggregate select
absence_told_once_example =
    absence_told_once unused_laptop 86400000 86460000 away away unused refl refl refl refl refl
