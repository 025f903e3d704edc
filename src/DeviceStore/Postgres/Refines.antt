-- ===== src/DeviceStore/Postgres/Refines.antt =====
-- The store of devicestore.postgres.go against the one of memory.go.
use grnoti.Prelude.{
  ℕ, ◌≡◌, refl, sym, ap, ◌∙◌, true, false, Option, none, some, List, [], ◌∷◌, String, map,
}
use grnoti.Prelude.Maps.{
  Map, lookup, insert, map_values, image, lookup-map_values, map_values-insert, map_values-delete,
}
use grnoti.Types.{Device, Error, validate_device}
use grnoti.Database.{
  Fault, served, refused, unanswered, applied, left_by, left_by-same, in_effect, micros,
}
use grnoti.Postgres.{pg_timestamptz, pg_time-pg_timestamptz}
use grnoti.DeviceStore.{
  mark_invalid as mark_in_memory, save_device as save_in_memory, delete_device as delete_in_memory,
  created_before, DeviceStore, invalidate, invalidated, saved, save_checked, Op, marks_invalid,
  saves, deletes, timed, step, run,
}
use grnoti.DeviceStore.Postgres.{
  DeviceRow, PostgresDevices, device_row_to_domain, rows_invalidated, mark_device_invalid,
  device_upserted, upsert_device, delete_row, new_row, mark_invalid, save_valid, save_device,
  delete_device, call, calls,
}

-- The devices of a table.
abbrev pub stock : Map DeviceRow → DeviceStore
stock = map_values device_row_to_domain

-- What a write of a row does to the devices.
stock-insert :
    (table : Map DeviceRow) (fid : String) (r : DeviceRow) (d : Device)
    → device_row_to_domain r ≡ d
    → stock (insert fid r table) ≡ insert fid d (stock table)
stock-insert table fid r d e =
    map_values-insert device_row_to_domain fid r table ∙ ap (λ x. insert fid x (stock table)) e

stock-invalidated :
    (table : Map DeviceRow) (fid : String) (now : ℕ) (found : Option DeviceRow)
    → stock (rows_invalidated fid (pg_timestamptz now) table found)
      ≡ invalidate (stock table) fid (micros now) (image device_row_to_domain found)
stock-invalidated table fid now none = refl
stock-invalidated table fid now (some r) =
    stock-insert table fid (record r { is_active = false; updated_at = pg_timestamptz now })
      (invalidated (device_row_to_domain r) (micros now)) (rw (pg_time-pg_timestamptz now) refl)

stock-mark_device_invalid :
    (table : Map DeviceRow) (fid : String) (now : ℕ)
    → stock (mark_device_invalid fid (pg_timestamptz now) table)
      ≡ mark_in_memory (stock table) fid (micros now)
unfolding mark_device_invalid mark_in_memory
stock-mark_device_invalid table fid now =
    rw (lookup-map_values device_row_to_domain fid table)
      (stock-invalidated table fid now (lookup fid table))

row_upserted :
    (d : Device) (now : ℕ) (found : Option DeviceRow)
    → device_row_to_domain (device_upserted (new_row d now) found) ≡ record d {
      created_at = created_before (micros now) (image device_row_to_domain found);
      is_active = true;
      updated_at = micros now;
    }
row_upserted d now none = rw (pg_time-pg_timestamptz now) refl
row_upserted d now (some r) = rw (pg_time-pg_timestamptz now) refl

stock-upsert_device :
    (table : Map DeviceRow) (d : Device) (now : ℕ)
    → stock (upsert_device (new_row d now) table)
      ≡ insert d.fid (saved (stock table) d (micros now)) (stock table)
unfolding upsert_device
stock-upsert_device table d now =
    stock-insert table d.fid (device_upserted (new_row d now) (lookup d.fid table))
      (saved (stock table) d (micros now))
      (rw (lookup-map_values device_row_to_domain d.fid table)
        (row_upserted d now (lookup d.fid table)))

stock-applied :
    (fault : Fault) (table changed : Map DeviceRow) (s : DeviceStore)
    → stock changed ≡ s
    → stock (applied fault table changed).1 ≡ left_by fault (stock table) s
stock-applied served table changed s e = e
stock-applied (refused why) table changed s e = refl
stock-applied (unanswered why) table changed s e = e

module _ {Pool : Type 0} where
  -- The store is not closed, and holds these devices.
  abbrev pub HoldsStock : PostgresDevices Pool → DeviceStore → Type 0
  HoldsStock s devices = (s.closed ≡ false) × (stock s.table ≡ devices)

  stock-saved :
      (fault : Fault) (s : PostgresDevices Pool) (d : Device) (now : ℕ) (refusal : Option Error)
      → s.closed ≡ false
      → HoldsStock
          (save_valid fault s d now refusal).1
          (left_by fault (stock s.table) (save_checked (stock s.table) d (micros now) refusal).1)
  stock-saved fault s d now (some e) c = (c, sym (left_by-same fault (stock s.table)))
  stock-saved fault s d now none c = (
    c,
    stock-applied fault s.table (upsert_device (new_row d now) s.table) _
        (stock-upsert_device s.table d now),
  )

  stock-call :
      (s : PostgresDevices Pool) (fault : Fault) (op : Op)
      → s.closed ≡ false
      → HoldsStock
          (call s (fault, op))
          (left_by fault (stock s.table) (step (stock s.table) (timed micros op)))
  unfolding call step mark_invalid save_device delete_device save_in_memory delete_in_memory
      delete_row
  stock-call s fault (marks_invalid fid now) c = rw c (
    refl,
    stock-applied fault s.table (mark_device_invalid fid (pg_timestamptz now) s.table) _
        (stock-mark_device_invalid s.table fid now),
  )
  stock-call s fault (saves d now) c =
      let open_path : save_device fault s d now ≡ save_valid fault s d now (validate_device d) =
        simp c refl in
      rw (call, open_path) (stock-saved fault s d now (validate_device d) c)
  stock-call s fault (deletes fid) c = rw c (
    refl,
    stock-applied fault s.table (delete_row fid s.table) _
        (map_values-delete device_row_to_domain fid s.table),
  )

  stock-next :
      (s : PostgresDevices Pool) (fault : Fault) (op : Op) (devices : DeviceStore)
      → HoldsStock s devices
      → HoldsStock (call s (fault, op)) (left_by fault devices (step devices (timed micros op)))
  stock-next s fault op devices h =
      let r = stock-call s fault op h.0 in
      (r.0, r.1 ∙ ap (λ m. left_by fault m (step m (timed micros op))) h.1)

  -- The devices after some calls are those of the operations that took effect, at readings of
  -- the clock in whole microseconds.
  pub stock-calls :
      (s : PostgresDevices Pool) (cs : List (Fault × Op)) (devices : DeviceStore)
      → HoldsStock s devices
      → HoldsStock (calls s cs) (run devices (map (timed micros) (in_effect cs)))
  unfolding calls run
  stock-calls s [] devices h = h
  stock-calls s ((served, op) ∷ cs) devices h =
      stock-calls (call s (served, op)) cs (step devices (timed micros op))
        (stock-next s served op devices h)
  stock-calls s ((refused e, op) ∷ cs) devices h =
      stock-calls (call s (refused e, op)) cs devices (stock-next s (refused e) op devices h)
  stock-calls s ((unanswered e, op) ∷ cs) devices h =
      stock-calls (call s (unanswered e, op)) cs (step devices (timed micros op))
        (stock-next s (unanswered e) op devices h)
