-- ===== src/DeviceStore/Postgres/Reads.antt =====
-- The reads of devicestore.postgres.go against those of memory.go.
use grnoti.Prelude.{
  ◌≡◌, refl, sym, ap, ◌∙◌, Bool, ◌&&◌, List, [], ◌∷◌, ◌++◌, map, String, ◌==◌, arith, select,
}
use mathlib.Core.List.{Perm}
use mathlib.Core.Path.{subst}
use grnoti.Prelude.Orders.{map-Perm}
use grnoti.Prelude.Maps.{Map, lookup, insert, values}
use grnoti.Types.{Device}
use grnoti.Database.{served}
use grnoti.DeviceStore.{
  get_active_devices as memory_devices, get_active_devices_by_anonymous_id as memory_anonymous,
  get_active_devices_batch as memory_batch, DeviceStore, wants, devices_of,
}
use grnoti.DeviceStore.Postgres.{
  DeviceRow, PostgresDevices, device_row_to_domain, active_rows_of_user, active_rows_of_anonymous,
  active_rows_of_users, group_rows, get_active_devices, get_active_devices_by_anonymous_id,
  get_active_devices_batch,
}
use grnoti.DeviceStore.Mongo.{group_docs}
use grnoti.DeviceStore.Orders.{SameDevices, SameBatch, group_docs-wanted, group_docs-Perm}
use grnoti.DeviceStore.Postgres.Refines.{stock, HoldsStock}

values-stock :
    (table : Map DeviceRow) → values (stock table) ≡ map device_row_to_domain (values table)
values-stock [] = refl
values-stock ((fid, r) ∷ rest) = ap (λ ds. device_row_to_domain r ∷ ds) (values-stock rest)

map-select :
    (p : DeviceRow → Bool) (q : Device → Bool) (rows : List DeviceRow)
    → ((r : DeviceRow) → p r ≡ q (device_row_to_domain r))
    → map device_row_to_domain (select p rows) ≡ select q (map device_row_to_domain rows)
map-select p q [] same = refl
map-select p q (r ∷ rows) same = ground (arith, same r, map-select p q rows same)

-- Grouping rows is grouping their devices.
group_rows-map :
    (rows : List DeviceRow) (out : Map (List Device))
    → group_rows out rows ≡ group_docs out (map device_row_to_domain rows)
unfolding group_rows group_docs
group_rows-map [] out = refl
group_rows-map (r ∷ rows) out =
    group_rows-map rows
      (insert r.user_id (devices_of (lookup r.user_id out) ++ (device_row_to_domain r ∷ [])) out)

module _ {Pool : Type 0} (order : List DeviceRow → List DeviceRow)
    (permutes : (rows : List DeviceRow) → Perm (order rows) rows) (s : PostgresDevices Pool)
    (devices : DeviceStore) (h : HoldsStock s devices) where
  devices-values : map device_row_to_domain (values s.table) ≡ values devices
  devices-values = sym (values-stock s.table) ∙ ap values h.1

  selected_alike :
      (p : DeviceRow → Bool) (q : Device → Bool)
      → ((r : DeviceRow) → p r ≡ q (device_row_to_domain r))
      → Perm
          (map device_row_to_domain (order (select p (values s.table))))
          (select q (values devices))
  selected_alike p q same =
      subst (Perm (map device_row_to_domain (order (select p (values s.table)))))
        (map-select p q (values s.table) same ∙ ap (select q) devices-values)
        (map-Perm device_row_to_domain (permutes (select p (values s.table))))

  pub user-stock :
      (user_id : String)
      → SameDevices (get_active_devices served order s user_id) (memory_devices devices user_id)
  unfolding get_active_devices memory_devices active_rows_of_user
  user-stock user_id = rw (h.0) (
      selected_alike (λ r. r.user_id == user_id && r.is_active)
        (λ d. d.user_id == user_id && d.is_active) (λ r. refl))

  pub anonymous-stock :
      (anonymous_id : String)
      → SameDevices
          (get_active_devices_by_anonymous_id served order s anonymous_id)
          (memory_anonymous devices anonymous_id)
  unfolding get_active_devices_by_anonymous_id memory_anonymous active_rows_of_anonymous
  anonymous-stock anonymous_id = rw (h.0) (
      selected_alike (λ r. r.anonymous_id == anonymous_id && r.is_active)
        (λ d. d.anonymous_id == anonymous_id && d.is_active) (λ r. refl))

  pub batch-stock :
      (user_ids : List String)
      → SameBatch (get_active_devices_batch served order s user_ids) (memory_batch devices user_ids)
  unfolding get_active_devices_batch memory_batch active_rows_of_users
  batch-stock user_ids = rw (h.0) (λ id.
      rw
        (
          group_rows-map
              (order (
                select (λ (r : DeviceRow). wants user_ids r.user_id && r.is_active)
                  (values s.table)))
              [],
          sym (group_docs-wanted user_ids (values devices) []),
        )
        (group_docs-Perm id (
          selected_alike (λ r. wants user_ids r.user_id && r.is_active)
            (λ d. wants user_ids d.user_id && d.is_active) (λ r. refl))))
