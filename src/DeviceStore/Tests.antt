-- ===== src/DeviceStore/Tests.antt =====
-- Runs of the device store, and its theorem at a concrete store.
use grnoti.Prelude.{ℕ, String, true, none, ◌≡◌, ◌≢◌, refl, false, List, [], ◌∷◌, All, map}
use mathlib.Core.List.Perm
use mathlib.Core.List.{Perm}
use grnoti.DeviceStore.Orders.{SameDevices, SameBatch}
use grnoti.Prelude.Maps.{lookup, insert}
use grnoti.Types.{Device, platform_android, validate_device}
use grnoti.Types.Fid.{valid_fid, matches_fid_pattern, is_fid_head, is_fid_char}
use grnoti.DeviceStore.{
  timed, DeviceStore, get_active_devices, mark_invalid, save_device, Op, saves, deletes, step, run,
}
use grnoti.Types.{err_closed}
use grnoti.Database.{Fault, served, refused, unanswered, in_effect, micros, millis}
use grnoti.DeviceStore.{get_active_devices_by_anonymous_id, get_active_devices_batch, marks_invalid}
use grnoti.DeviceStore.Postgres.{
  PostgresDevices, get_active_devices as rows_of_user,
  get_active_devices_by_anonymous_id as rows_of_anonymous,
  get_active_devices_batch as rows_of_users, calls as postgres_calls,
}
use grnoti.DeviceStore.Mongo.{
  MongoDevices, get_active_devices as docs_of_user,
  get_active_devices_by_anonymous_id as docs_of_anonymous,
  get_active_devices_batch as docs_of_users, calls as mongo_calls,
}
use grnoti.DeviceStore.Databases.{device_stores_agree}
use grnoti.DeviceStore.Invalid.{Inv, step-Inv, invalid_is_hidden}

abbrev phone : Device
phone = record {
  fid = "cAAAAAAAAAAAAAAAAAAAAA";
  platform = platform_android;
  user_id = "u";
  anonymous_id = "";
  device_id = "";
  app_version = "";
  is_active = false;
  created_at = 0;
  updated_at = 0;
}

abbrev tablet : Device
tablet = record phone { fid = "dAAAAAAAAAAAAAAAAAAAAA" }

abbrev first_save : Op
first_save = saves phone 1

abbrev store : DeviceStore
store = step [] first_save

store-Inv : Inv store
store-Inv = step-Inv [] first_save (record { unique = tt; keyed = tt })

saved_is_active : map (λ (d : Device). d.fid) (get_active_devices store "u") ≡ phone.fid ∷ []
unfolding get_active_devices step save_device validate_device valid_fid matches_fid_pattern
    is_fid_head is_fid_char lookup insert
saved_is_active = refl

abbrev later : List Op
later = saves tablet 5 ∷ deletes "none" ∷ []

invalid_is_hidden_example :
    All
      (λ (d : Device). d.fid ≢ phone.fid)
      (get_active_devices (run (mark_invalid store phone.fid 3) later) "u")
invalid_is_hidden_example = invalid_is_hidden store later phone.fid "u" 3 store-Inv refl

abbrev no_rows : PostgresDevices ℕ
no_rows = record { pool = 0; owns_pool = true; closed = false; table = [] }

abbrev no_docs : MongoDevices ℕ
no_docs = record { client = 0; closed = false; collection = [] }

-- A refused save, one whose answer is lost, one that is served, and a mark.
abbrev day : List (Fault × Op)
day =
    (refused err_closed, first_save)
    ∷ (unanswered err_closed, first_save)
    ∷ (served, saves tablet 5000123)
    ∷ (served, marks_invalid tablet.fid 7000456)
    ∷ (served, saves tablet 8000789)
    ∷ []

abbrev users : List String
users = "u" ∷ "v" ∷ []

-- The database gives the rows in the reverse order of a list of two.
abbrev swapped : {A : Type 0} → List A → List A
swapped (first ∷ second ∷ rest) = second ∷ first ∷ rest
swapped found = found

swapped-Perm : {A : Type 0} (found : List A) → Perm (swapped found) found
swapped-Perm [] = Perm.refl []
swapped-Perm (first ∷ []) = Perm.refl (first ∷ [])
swapped-Perm (first ∷ second ∷ rest) = Perm.swap first second rest

device_stores_agree_example :
    let by_micros = run [] (map (timed micros) (in_effect day)) in
    let by_millis = run [] (map (timed millis) (in_effect day)) in
    let table = postgres_calls no_rows day in
    let collection = mongo_calls no_docs day in
    SameDevices (rows_of_user served swapped table "u") (get_active_devices by_micros "u")
    × SameDevices
        (rows_of_anonymous served swapped table "u")
        (get_active_devices_by_anonymous_id by_micros "u")
    × SameBatch
        (rows_of_users served swapped table users)
        (get_active_devices_batch by_micros users)
    × SameDevices
        (docs_of_user served none swapped collection "u")
        (get_active_devices by_millis "u")
    × SameDevices
        (docs_of_anonymous served none swapped collection "u")
        (get_active_devices_by_anonymous_id by_millis "u")
    × SameBatch
        (docs_of_users served none swapped collection users)
        (get_active_devices_batch by_millis users)
device_stores_agree_example =
    device_stores_agree no_rows no_docs [] [] swapped swapped day "u" users (refl, refl)
      (refl, refl) swapped-Perm swapped-Perm
