-- ===== src/DeviceStore.antt =====
-- memory.go: memoryDeviceStore, the in-memory store of devices, by FID. Each method runs under the
-- store's lock, so it is one function on the map; `now` is the clock's reading there.
pub mod Invalid
pub mod Postgres
pub mod Mongo
mod Orders
pub mod Databases
pub mod Tests
use grnoti.Prelude.{
  ℕ, Bool, true, false, ◌&&◌, Option, none, some, List, [], ◌∷◌, ◌++◌, String, ◌==◌, if◌then◌else◌,
  select,
}
use grnoti.Prelude.Maps.{Map, lookup, insert, delete, values}
use grnoti.Types.{Device, Error, validate_device}

abbrev pub DeviceStore : Type 0
DeviceStore = Map Device

unfoldable pub get_active_devices : DeviceStore → String → List Device
get_active_devices s user_id =
    select (λ (d : Device). d.user_id == user_id && d.is_active) (values s)

unfoldable pub get_active_devices_by_anonymous_id : DeviceStore → String → List Device
get_active_devices_by_anonymous_id s anonymous_id =
    select (λ (d : Device). d.anonymous_id == anonymous_id && d.is_active) (values s)

unfoldable pub wants : List String → String → Bool
wants [] id = false
wants (user_id ∷ rest) id = if user_id == id then true else wants rest id

abbrev pub devices_of : Option (List Device) → List Device
devices_of none = []
devices_of (some ds) = ds

-- The loop of GetActiveDevicesBatch.
unfoldable pub collect_wanted : List String → Map (List Device) → List Device → Map (List Device)
unfolding wants
collect_wanted user_ids out [] = out
collect_wanted user_ids out (d ∷ ds) =
    collect_wanted user_ids
      (if d.is_active && wants user_ids d.user_id
        then insert d.user_id (devices_of (lookup d.user_id out) ++ (d ∷ [])) out
        else out)
      ds

unfoldable pub get_active_devices_batch : DeviceStore → List String → Map (List Device)
unfolding collect_wanted
get_active_devices_batch s user_ids = collect_wanted user_ids [] (values s)

abbrev pub invalidated : Device → ℕ → Device
invalidated d now = record d { is_active = false; updated_at = now }

abbrev pub invalidate : DeviceStore → String → ℕ → Option Device → DeviceStore
invalidate s fid now none = s
invalidate s fid now (some d) = insert fid (invalidated d now) s

unfoldable pub mark_invalid : DeviceStore → String → ℕ → DeviceStore
mark_invalid s fid now = invalidate s fid now (lookup fid s)

-- CreatedAt of a device that was there stays.
abbrev pub created_before : ℕ → Option Device → ℕ
created_before now none = now
created_before now (some existing) = existing.created_at

abbrev pub saved : DeviceStore → Device → ℕ → Device
saved s d now = record d {
  created_at = created_before now (lookup d.fid s);
  is_active = true;
  updated_at = now;
}

abbrev pub save_checked : DeviceStore → Device → ℕ → Option Error → Option Error × DeviceStore
save_checked s d now (some e) = (some e, s)
save_checked s d now none = (none, insert d.fid (saved s d now) s)

unfoldable pub save_device : DeviceStore → Device → ℕ → Option Error × DeviceStore
save_device s d now = save_checked s d now (validate_device d)

unfoldable pub delete_device : DeviceStore → String → DeviceStore
delete_device s fid = delete fid s

pub data Op : Type 0 where
  marks_invalid : String → ℕ → Op
  saves : Device → ℕ → Op
  deletes : String → Op

-- An operation at another reading of the clock.
abbrev pub timed : (ℕ → ℕ) → Op → Op
timed f (marks_invalid fid now) = marks_invalid fid (f now)
timed f (saves d now) = saves d (f now)
timed f (deletes fid) = deletes fid

unfoldable pub step : DeviceStore → Op → DeviceStore
unfolding mark_invalid save_device delete_device
step s (marks_invalid fid now) = mark_invalid s fid now
step s (saves d now) = (save_device s d now).1
step s (deletes fid) = delete_device s fid

unfoldable pub run : DeviceStore → List Op → DeviceStore
unfolding step
run s [] = s
run s (op ∷ ops) = run (step s op) ops
