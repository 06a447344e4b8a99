-- ===== src/People/Directory.antt =====
-- Queries of PeopleService, and the operations on people.
use matreshka_panel.Base.{
  Bool, false, not, ◌&&◌, ◌||◌, Option, none, some, List, [], ◌∷◌, ◌++◌, Time, Key, String, or_else,
  is_some, get, select, update, ◌==◌,
}
use matreshka_panel.Journal.Json.{object, field, string, end, Json}
use matreshka_panel.Journal.Types.{EventType}
use matreshka_panel.Journal.Record.{Entry, blank, Ident, uuid, log_change}
use matreshka_panel.Registry.{
  Registry, Person, Device, revoked, device_status_eq, Result, ok, ◌>>=◌, ◌>>◌, require, found,
}

-- `SELECT * FROM people WHERE id = ? AND archived_at IS NULL`
unfoldable pub find_person : Key → Registry → Option Person
find_person id reg = get (λ p. p.id == id && not (is_some p.archived_at)) reg.people

-- `SELECT ... FROM devices JOIN people ON people.id = devices.person_id WHERE devices.id = ?`
unfoldable pub find_device : Key → Registry → Option Device
find_device id reg = get (λ d. d.id == id) reg.devices

-- `PeopleService.get`
unfoldable pub person : Key → Registry → Result (Person × List Device)
person id reg = do
  p ← found (find_person id reg) 404
  ok (p, select (λ d. d.person_id == id) reg.devices)

-- `PeopleService.device`
unfoldable pub device : Key → Registry → Result Device
device id reg = found (find_device id reg) 404

abbrev pub name_data : String → Json
name_data name = object (field "personName" (string name) end)

unfoldable pub person_entry : Ident → Key → String → Entry
person_entry actor id name = record blank {
  actor = some actor;
  subject_type = some "person";
  subject_id = some (uuid id);
  payload = name_data name;
}

-- `PeopleService.create`
unfoldable pub create :
    Key → String → String → String → String → Ident → Time → Registry → Registry × Person
unfolding person_entry
create id name note color avatar actor now reg =
    let p : Person = record {
      id = id;
      name = name;
      note = note;
      color = color;
      avatar = avatar;
      created_at = now;
      updated_at = now;
      archived_at = none;
    } in
    (
      record reg {
        people = reg.people ++ p ∷ [];
        journal =
            log_change EventType.person_created actor "people.create" "person" (some (uuid id))
              (person_entry actor id name) now reg.journal;
      },
      p,
    )

-- The fields that an update may leave out.
pub record PersonUpdate : Type 0 where
  pub name : Option String
  pub note : Option String
  pub color : Option String
  pub avatar : Option String

-- `PeopleService.update`
unfoldable pub update_person : Key → PersonUpdate → Ident → Time → Registry → Result Registry
unfolding person_entry person find_person
update_person id input actor now reg = do
  (before, devices) ← person id reg
  ok (record reg {
    people =
        update (λ p. p.id == id)
          (λ p. record p {
            name = or_else input.name before.name;
            note = or_else input.note before.note;
            color = or_else input.color before.color;
            avatar = or_else input.avatar before.avatar;
            updated_at = now;
          })
          reg.people;
    journal =
        log_change EventType.person_updated actor "people.update" "person" (some (uuid id))
          (person_entry actor id (or_else input.name before.name)) now reg.journal;
  })

-- `before.devices.some((device) => device.status !== "revoked")`
unfoldable pub some_live : List Device → Bool
some_live [] = false
some_live (d ∷ ds) = not (device_status_eq d.status revoked) || some_live ds

-- `PeopleService.archive`
unfoldable pub archive : Key → Ident → Time → Registry → Result Registry
unfolding person_entry person find_person
archive id actor now reg = do
  (before, devices) ← person id reg
  require (not (some_live devices)) 409
  ok (record reg {
    people =
        update (λ p. p.id == id) (λ p. record p { archived_at = some now; updated_at = now })
          reg.people;
    journal =
        log_change EventType.person_archived actor "people.archive" "person" (some (uuid id))
          (person_entry actor id before.name) now reg.journal;
  })
