-- ===== src/DeviceStore/Databases.antt =====
-- The device stores over the databases, devicestore.postgres.go and devicestore.mongo.go, against
-- the one of memory.go.
use mathlib.Core.List.{Perm}
use grnoti.DeviceStore.Orders.{SameDevices, SameBatch}
use grnoti.Prelude.{map, none, List, String}
use grnoti.Database.{Fault, served, in_effect, micros, millis}
use grnoti.Types.{Device}
use grnoti.DeviceStore.{
  timed, DeviceStore, get_active_devices, get_active_devices_by_anonymous_id,
  get_active_devices_batch, Op, run,
}
use grnoti.DeviceStore.Postgres.{
  DeviceRow, PostgresDevices, get_active_devices as rows_of_user,
  get_active_devices_by_anonymous_id as rows_of_anonymous,
  get_active_devices_batch as rows_of_users, calls as postgres_calls,
}
use grnoti.DeviceStore.Postgres.Refines.{HoldsStock, stock-calls}
use grnoti.DeviceStore.Postgres.Reads.{user-stock, anonymous-stock, batch-stock}
use grnoti.DeviceStore.Mongo.{
  MongoDevices, get_active_devices as docs_of_user,
  get_active_devices_by_anonymous_id as docs_of_anonymous,
  get_active_devices_batch as docs_of_users, calls as mongo_calls,
}
use grnoti.DeviceStore.Mongo.Refines.{HoldsDocs, docs-calls, user-docs, anonymous-docs, batch-docs}

module _ {Pool Client : Type 0} where
  -- After any calls of SaveDevice, MarkInvalid and DeleteDevice, of which the database may refuse
  -- some and leave others without an answer, the store over PostgreSQL and the store over MongoDB,
  -- neither of them closed, give exactly the devices of a user, of an anonymous user and of each
  -- user of a batch that the store in memory does, in whatever order the database gives its rows:
  -- the store in memory after the calls that took effect, with each reading of its clock in whole
  -- microseconds for PostgreSQL, and in whole milliseconds for MongoDB.
  pub device_stores_agree :
      (rows : PostgresDevices Pool) (docs : MongoDevices Client) (of_rows of_docs : DeviceStore)
      (row_order : List DeviceRow → List DeviceRow) (doc_order : List Device → List Device)
      (calls : List (Fault × Op)) (id : String) (ids : List String)
      → HoldsStock rows of_rows
      → HoldsDocs docs of_docs
      → ((found : List DeviceRow) → Perm (row_order found) found)
      → ((found : List Device) → Perm (doc_order found) found)
      → let by_micros = run of_rows (map (timed micros) (in_effect calls)) in
        let by_millis = run of_docs (map (timed millis) (in_effect calls)) in
        let table = postgres_calls rows calls in
        let collection = mongo_calls docs calls in
        SameDevices (rows_of_user served row_order table id) (get_active_devices by_micros id)
        × SameDevices
            (rows_of_anonymous served row_order table id)
            (get_active_devices_by_anonymous_id by_micros id)
        × SameBatch
            (rows_of_users served row_order table ids)
            (get_active_devices_batch by_micros ids)
        × SameDevices
            (docs_of_user served none doc_order collection id)
            (get_active_devices by_millis id)
        × SameDevices
            (docs_of_anonymous served none doc_order collection id)
            (get_active_devices_by_anonymous_id by_millis id)
        × SameBatch
            (docs_of_users served none doc_order collection ids)
            (get_active_devices_batch by_millis ids)
  device_stores_agree rows docs of_rows of_docs row_order doc_order calls id ids in_rows in_docs
        rows_permute docs_permute =
      let by_micros = run of_rows (map (timed micros) (in_effect calls)) in
      let by_millis = run of_docs (map (timed millis) (in_effect calls)) in
      let table = postgres_calls rows calls in
      let collection = mongo_calls docs calls in
      let r = stock-calls rows calls of_rows in_rows in
      let d = docs-calls docs calls of_docs in_docs in
      (
        user-stock row_order rows_permute table by_micros r id,
        anonymous-stock row_order rows_permute table by_micros r id,
        batch-stock row_order rows_permute table by_micros r ids,
        user-docs doc_order docs_permute collection by_millis d id,
        anonymous-docs doc_order docs_permute collection by_millis d id,
        batch-docs doc_order docs_permute collection by_millis d ids,
      )
