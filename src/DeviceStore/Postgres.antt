-- ===== src/DeviceStore/Postgres.antt =====
-- devicestore.postgres.go, with the statements of internal/postgresdb/devices.sql.go on the table
-- grnoti_devices, by FID. The counts of changed rows only decide on a log line. A row that breaks
-- a limit of its column is refused, as any statement may be.
pub mod Refines
pub mod Reads
use grnoti.Prelude.{
  ℕ, Bool, true, false, ◌&&◌, Option, none, some, Result, ok, err, List, [], ◌∷◌, ◌++◌, map, String,
  concat, ◌==◌, if◌then◌else◌, select,
}
use grnoti.Prelude.Maps.{Map, lookup, insert, delete, values}
use grnoti.Types.{Platform, Device, Error, err_closed, validate_device}
use grnoti.Database.{Fault, applied, queried, unavailable_error, failed_as}
use grnoti.Postgres.{Timestamptz, pg_timestamptz, pg_time, PostgresStore}
use grnoti.DeviceStore.{wants, devices_of, Op, marks_invalid, saves, deletes}

-- GrnotiDevice
pub record DeviceRow : Type 0 where
  pub fid : String
  pub platform : String
  pub user_id : String
  pub anonymous_id : String
  pub device_id : String
  pub app_version : String
  pub is_active : Bool
  pub created_at : Timestamptz
  pub updated_at : Timestamptz

abbrev pub device_row_to_domain : DeviceRow → Device
device_row_to_domain r = record {
  fid = r.fid;
  platform = r.platform;
  user_id = r.user_id;
  anonymous_id = r.anonymous_id;
  device_id = r.device_id;
  app_version = r.app_version;
  is_active = r.is_active;
  created_at = pg_time r.created_at;
  updated_at = pg_time r.updated_at;
}

-- The SELECTs of the active devices of a user, of an anonymous user, and of some users.
unfoldable pub active_rows_of_user : String → Map DeviceRow → List DeviceRow
active_rows_of_user user_id table =
    select (λ (r : DeviceRow). r.user_id == user_id && r.is_active) (values table)

unfoldable pub active_rows_of_anonymous : String → Map DeviceRow → List DeviceRow
active_rows_of_anonymous anonymous_id table =
    select (λ (r : DeviceRow). r.anonymous_id == anonymous_id && r.is_active) (values table)

unfoldable pub active_rows_of_users : List String → Map DeviceRow → List DeviceRow
active_rows_of_users user_ids table =
    select (λ (r : DeviceRow). wants user_ids r.user_id && r.is_active) (values table)

-- UPDATE ... SET is_active = false WHERE fid = $1
abbrev pub rows_invalidated :
    String → Timestamptz → Map DeviceRow → Option DeviceRow → Map DeviceRow
rows_invalidated fid now table none = table
rows_invalidated fid now table (some r) =
    insert fid (record r { is_active = false; updated_at = now }) table

unfoldable pub mark_device_invalid : String → Timestamptz → Map DeviceRow → Map DeviceRow
mark_device_invalid fid now table = rows_invalidated fid now table (lookup fid table)

-- INSERT ... ON CONFLICT (fid) DO UPDATE, which leaves created_at. `new` is the row of the INSERT,
-- EXCLUDED in the UPDATE; the row in conflict has its FID.
abbrev pub device_upserted : DeviceRow → Option DeviceRow → DeviceRow
device_upserted new none = new
device_upserted new (some old) = record old {
  fid = new.fid;
  platform = new.platform;
  user_id = new.user_id;
  anonymous_id = new.anonymous_id;
  device_id = new.device_id;
  app_version = new.app_version;
  is_active = true;
  updated_at = new.updated_at;
}

unfoldable pub upsert_device : DeviceRow → Map DeviceRow → Map DeviceRow
upsert_device new table = insert new.fid (device_upserted new (lookup new.fid table)) table

-- DELETE ... WHERE fid = $1
unfoldable pub delete_row : String → Map DeviceRow → Map DeviceRow
delete_row fid table = delete fid table

abbrev pub rows_found : String → Result Error (List DeviceRow) → Result Error (List Device)
rows_found text (err e) = err (unavailable_error text e)
rows_found text (ok rows) = ok (map device_row_to_domain rows)

-- The loop of GetActiveDevicesBatch: the devices of each user.
unfoldable pub group_rows : Map (List Device) → List DeviceRow → Map (List Device)
group_rows out [] = out
group_rows out (r ∷ rows) =
    group_rows
      (insert r.user_id (devices_of (lookup r.user_id out) ++ (device_row_to_domain r ∷ [])) out)
      rows

abbrev pub rows_grouped : Result Error (List DeviceRow) → Result Error (Map (List Device))
rows_grouped (err e) = err (unavailable_error "grnoti/postgres: get active devices batch" e)
rows_grouped (ok rows) = ok (group_rows [] rows)

-- postgresDeviceStore
abbrev pub PostgresDevices : Type 0 → Type 0
PostgresDevices Pool = PostgresStore Pool (Map DeviceRow)

abbrev pub new_row : Device → ℕ → DeviceRow
new_row d now = record {
  fid = d.fid;
  platform = d.platform;
  user_id = d.user_id;
  anonymous_id = d.anonymous_id;
  device_id = d.device_id;
  app_version = d.app_version;
  is_active = true;
  created_at = pg_timestamptz now;
  updated_at = pg_timestamptz now;
}

module _ {Pool : Type 0} where
  -- A SELECT without an ORDER BY gives its rows in any `order`.
  unfoldable pub get_active_devices :
      Fault
      → (List DeviceRow → List DeviceRow)
      → PostgresDevices Pool
      → String
      → Result Error (List Device)
  get_active_devices fault order s user_id =
      if s.closed
      then err err_closed
      else rows_found (concat "grnoti/postgres: get active devices for " user_id)
          (queried fault (order (active_rows_of_user user_id s.table)))

  unfoldable pub get_active_devices_by_anonymous_id :
      Fault
      → (List DeviceRow → List DeviceRow)
      → PostgresDevices Pool
      → String
      → Result Error (List Device)
  get_active_devices_by_anonymous_id fault order s anonymous_id =
      if s.closed
      then err err_closed
      else rows_found (concat "grnoti/postgres: get active devices for anonymous " anonymous_id)
          (queried fault (order (active_rows_of_anonymous anonymous_id s.table)))

  unfoldable pub get_active_devices_batch :
      Fault
      → (List DeviceRow → List DeviceRow)
      → PostgresDevices Pool
      → List String
      → Result Error (Map (List Device))
  get_active_devices_batch fault order s user_ids =
      if s.closed
      then err err_closed
      else rows_grouped (queried fault (order (active_rows_of_users user_ids s.table)))

  -- A statement without an answer, with the text of its failure.
  abbrev pub changed_by :
      String
      → PostgresDevices Pool
      → Option Error × Map DeviceRow
      → Option Error × PostgresDevices Pool
  changed_by text s r = (failed_as text r.0, record s { table = r.1 })

  unfoldable pub mark_invalid :
      Fault → PostgresDevices Pool → String → ℕ → Option Error × PostgresDevices Pool
  mark_invalid fault s fid now =
      if s.closed
      then (some err_closed, s)
      else changed_by (concat "grnoti/postgres: mark invalid " fid) s
          (applied fault s.table (mark_device_invalid fid (pg_timestamptz now) s.table))

  abbrev pub save_valid :
      Fault → PostgresDevices Pool → Device → ℕ → Option Error → Option Error × PostgresDevices Pool
  save_valid fault s d now (some e) = (some e, s)
  save_valid fault s d now none =
      changed_by "grnoti/postgres: save device" s
        (applied fault s.table (upsert_device (new_row d now) s.table))

  unfoldable pub save_device :
      Fault → PostgresDevices Pool → Device → ℕ → Option Error × PostgresDevices Pool
  save_device fault s d now =
      if s.closed then (some err_closed, s) else save_valid fault s d now (validate_device d)

  unfoldable pub delete_device :
      Fault → PostgresDevices Pool → String → Option Error × PostgresDevices Pool
  delete_device fault s fid =
      if s.closed
      then (some err_closed, s)
      else changed_by (concat "grnoti/postgres: delete device " fid) s
          (applied fault s.table (delete_row fid s.table))

  unfoldable pub call : PostgresDevices Pool → Fault × Op → PostgresDevices Pool
  call s (fault, marks_invalid fid now) = (mark_invalid fault s fid now).1
  call s (fault, saves d now) = (save_device fault s d now).1
  call s (fault, deletes fid) = (delete_device fault s fid).1

  unfoldable pub calls : PostgresDevices Pool → List (Fault × Op) → PostgresDevices Pool
  calls s [] = s
  calls s (c ∷ cs) = calls (call s c) cs
