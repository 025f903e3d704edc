-- ===== src/DeviceStore/Mongo.antt =====
-- devicestore.mongo.go: the collection of the devices, by FID. mongoDeviceDoc has the fields of
-- Device, and toDevice is a conversion between the two types, so a document is a Device here; every
-- document is decodable, as the ones that the store writes are. A query may fail, and so may the
-- cursor over what it finds, with an error of its own.
pub mod Refines
use grnoti.Prelude.{
  ℕ, Bool, true, false, ◌&&◌, Option, none, some, Result, ok, err, List, [], ◌∷◌, ◌++◌, String,
  concat, ◌==◌, if◌then◌else◌, select,
}
use grnoti.Prelude.Maps.{Map, lookup, insert, delete, values}
use grnoti.Types.{Device, Error, err_closed, wrapped, validate_device}
use grnoti.Database.{
  Fault, served, refused, unanswered, applied, unavailable_error, failed_as, millis,
}
use grnoti.Mongo.{MongoStore}
use grnoti.DeviceStore.{wants, devices_of, Op, marks_invalid, saves, deletes}

-- mongoDeviceStore
abbrev pub MongoDevices : Type 0 → Type 0
MongoDevices Client = MongoStore Client (Map Device)

-- Find, and then the cursor: the texts of both failures, where that of the cursor is not joined
-- with ErrBackendUnavailable.
abbrev pub fetched : {A : Type 0} → String → String → Fault → Option Error → A → Result Error A
fetched find_text cursor_text served none answer = ok answer
fetched find_text cursor_text served (some e) answer = err (wrapped cursor_text e)
fetched find_text cursor_text (refused e) cursor answer = err (unavailable_error find_text e)
fetched find_text cursor_text (unanswered e) cursor answer = err (unavailable_error find_text e)

-- The loop of GetActiveDevicesBatch over the cursor.
unfoldable pub group_docs : Map (List Device) → List Device → Map (List Device)
group_docs out [] = out
group_docs out (d ∷ docs) =
    group_docs (insert d.user_id (devices_of (lookup d.user_id out) ++ (d ∷ [])) out) docs

abbrev pub batch_text : String
batch_text = "grnoti/mongo: get active devices batch"

-- $set on the document that is there, or on a new one with $setOnInsert and the filter's FID.
abbrev pub doc_written : Device → ℕ → Option Device → Device
doc_written d now none = record d {
  is_active = true;
  created_at = millis now;
  updated_at = millis now;
}
doc_written d now (some old) = record old {
  fid = d.fid;
  platform = d.platform;
  user_id = d.user_id;
  anonymous_id = d.anonymous_id;
  device_id = d.device_id;
  app_version = d.app_version;
  is_active = true;
  updated_at = millis now;
}

abbrev pub doc_invalidated : String → ℕ → Map Device → Option Device → Map Device
doc_invalidated fid now docs none = docs
doc_invalidated fid now docs (some d) =
    insert fid (record d { is_active = false; updated_at = millis now }) docs

module _ {Client : Type 0} where
  -- A Find without a sort gives its documents in any `order`.
  unfoldable pub get_active_devices :
      Fault
      → Option Error
      → (List Device → List Device)
      → MongoDevices Client
      → String
      → Result Error (List Device)
  get_active_devices fault cursor order s user_id =
      if s.closed
      then err err_closed
      else fetched (concat "grnoti/mongo: get active devices for " user_id)
          (concat "grnoti/mongo: decode devices for " user_id) fault cursor
          (order
            (select (λ (d : Device). d.user_id == user_id && d.is_active) (values s.collection)))

  unfoldable pub get_active_devices_by_anonymous_id :
      Fault
      → Option Error
      → (List Device → List Device)
      → MongoDevices Client
      → String
      → Result Error (List Device)
  get_active_devices_by_anonymous_id fault cursor order s anonymous_id =
      if s.closed
      then err err_closed
      else fetched (concat "grnoti/mongo: get active devices for anonymous " anonymous_id)
          (concat "grnoti/mongo: decode devices for anonymous " anonymous_id) fault cursor
          (order (
            select (λ (d : Device). d.anonymous_id == anonymous_id && d.is_active)
              (values s.collection)))

  unfoldable pub get_active_devices_batch :
      Fault
      → Option Error
      → (List Device → List Device)
      → MongoDevices Client
      → List String
      → Result Error (Map (List Device))
  get_active_devices_batch fault cursor order s user_ids =
      if s.closed
      then err err_closed
      else fetched batch_text batch_text fault cursor (
          group_docs [] (
            order (
              select (λ (d : Device). wants user_ids d.user_id && d.is_active)
                (values s.collection))))

  abbrev pub doc_changed :
      String → MongoDevices Client → Option Error × Map Device → Option Error × MongoDevices Client
  doc_changed text s r = (failed_as text r.0, record s { collection = r.1 })

  unfoldable pub mark_invalid :
      Fault → MongoDevices Client → String → ℕ → Option Error × MongoDevices Client
  mark_invalid fault s fid now =
      if s.closed
      then (some err_closed, s)
      else doc_changed (concat "grnoti/mongo: mark invalid " fid) s (
          applied fault s.collection
            (doc_invalidated fid now s.collection (lookup fid s.collection)))

  abbrev pub save_valid :
      Fault → MongoDevices Client → Device → ℕ → Option Error → Option Error × MongoDevices Client
  save_valid fault s d now (some e) = (some e, s)
  save_valid fault s d now none = doc_changed "grnoti/mongo: save device" s (
      applied fault s.collection
        (insert d.fid (doc_written d now (lookup d.fid s.collection)) s.collection))

  unfoldable pub save_device :
      Fault → MongoDevices Client → Device → ℕ → Option Error × MongoDevices Client
  save_device fault s d now =
      if s.closed then (some err_closed, s) else save_valid fault s d now (validate_device d)

  unfoldable pub delete_device :
      Fault → MongoDevices Client → String → Option Error × MongoDevices Client
  delete_device fault s fid =
      if s.closed
      then (some err_closed, s)
      else doc_changed (concat "grnoti/mongo: delete device " fid) s
          (applied fault s.collection (delete fid s.collection))

  unfoldable pub call : MongoDevices Client → Fault × Op → MongoDevices Client
  call s (fault, marks_invalid fid now) = (mark_invalid fault s fid now).1
  call s (fault, saves d now) = (save_device fault s d now).1
  call s (fault, deletes fid) = (delete_device fault s fid).1

  unfoldable pub calls : MongoDevices Client → List (Fault × Op) → MongoDevices Client
  calls s [] = s
  calls s (c ∷ cs) = calls (call s c) cs
