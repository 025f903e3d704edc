-- ===== src/DeviceStore/Mongo/Refines.antt =====
-- The store of devicestore.mongo.go against the one of memory.go.
use grnoti.Prelude.{
  Bool, ◌==◌, map, ℕ, ◌≡◌, refl, sym, ap, ◌∙◌, false, ◌&&◌, Option, none, some, List, [], ◌∷◌,
  String, select,
}
use mathlib.Core.List.{Perm}
use mathlib.Core.Path.{subst}
use grnoti.Prelude.Maps.{lookup, insert, values}
use grnoti.Types.{Device, Error, validate_device}
use grnoti.Database.{Fault, served, refused, unanswered, left_by, left_by-same, in_effect, millis}
use grnoti.DeviceStore.{
  get_active_devices as memory_devices, get_active_devices_by_anonymous_id as memory_anonymous,
  get_active_devices_batch as memory_batch, mark_invalid as mark_in_memory,
  save_device as save_in_memory, delete_device as delete_in_memory, DeviceStore, wants, invalidate,
  saved, save_checked, Op, marks_invalid, saves, deletes, step, run, timed,
}
use grnoti.DeviceStore.Orders.{SameDevices, SameBatch, group_docs-wanted, group_docs-Perm}
use grnoti.DeviceStore.Mongo.{
  MongoDevices, doc_written, doc_invalidated, get_active_devices,
  get_active_devices_by_anonymous_id, get_active_devices_batch, mark_invalid, save_valid,
  save_device, delete_device, call, calls,
}

doc_invalidated-eq-invalidate :
    (fid : String) (now : ℕ) (docs : DeviceStore) (found : Option Device)
    → doc_invalidated fid now docs found ≡ invalidate docs fid (millis now) found
doc_invalidated-eq-invalidate fid now docs none = refl
doc_invalidated-eq-invalidate fid now docs (some d) = refl

doc_saved :
    (docs : DeviceStore) (d : Device) (now : ℕ) (found : Option Device)
    → lookup d.fid docs ≡ found
    → doc_written d now found ≡ saved docs d (millis now)
doc_saved docs d now none e = rw e refl
doc_saved docs d now (some old) e = rw e refl

module _ {Client : Type 0} where
  -- The store is not closed, and holds these devices.
  abbrev pub HoldsDocs : MongoDevices Client → DeviceStore → Type 0
  HoldsDocs s devices = (s.closed ≡ false) × (s.collection ≡ devices)

  docs-saved :
      (fault : Fault) (s : MongoDevices Client) (d : Device) (now : ℕ) (refusal : Option Error)
      → s.closed ≡ false
      → HoldsDocs
          (save_valid fault s d now refusal).1
          (left_by fault s.collection (save_checked s.collection d (millis now) refusal).1)
  docs-saved fault s d now (some e) c = (c, sym (left_by-same fault s.collection))
  docs-saved fault s d now none c = (
    c,
    ap (λ x. left_by fault s.collection (insert d.fid x s.collection))
        (doc_saved s.collection d now (lookup d.fid s.collection) refl),
  )

  docs-call :
      (s : MongoDevices Client) (fault : Fault) (op : Op)
      → s.closed ≡ false
      → HoldsDocs
          (call s (fault, op))
          (left_by fault s.collection (step s.collection (timed millis op)))
  unfolding call step mark_invalid save_device delete_device mark_in_memory save_in_memory
      delete_in_memory
  docs-call s fault (marks_invalid fid now) c = rw c (
    refl,
    ap (left_by fault s.collection)
        (doc_invalidated-eq-invalidate fid now s.collection (lookup fid s.collection)),
  )
  docs-call s fault (saves d now) c =
      let open_path : save_device fault s d now ≡ save_valid fault s d now (validate_device d) =
        simp c refl in
      rw (call, open_path) (docs-saved fault s d now (validate_device d) c)
  docs-call s fault (deletes fid) c = rw c (refl, refl)

  docs-next :
      (s : MongoDevices Client) (fault : Fault) (op : Op) (devices : DeviceStore)
      → HoldsDocs s devices
      → HoldsDocs (call s (fault, op)) (left_by fault devices (step devices (timed millis op)))
  docs-next s fault op devices h =
      let r = docs-call s fault op h.0 in
      (r.0, r.1 ∙ ap (λ m. left_by fault m (step m (timed millis op))) h.1)

  -- The devices after some calls are those of the operations that took effect, at readings of
  -- the clock in whole milliseconds.
  pub docs-calls :
      (s : MongoDevices Client) (cs : List (Fault × Op)) (devices : DeviceStore)
      → HoldsDocs s devices
      → HoldsDocs (calls s cs) (run devices (map (timed millis) (in_effect cs)))
  unfolding calls run
  docs-calls s [] devices h = h
  docs-calls s ((served, op) ∷ cs) devices h =
      docs-calls (call s (served, op)) cs (step devices (timed millis op))
        (docs-next s served op devices h)
  docs-calls s ((refused e, op) ∷ cs) devices h =
      docs-calls (call s (refused e, op)) cs devices (docs-next s (refused e) op devices h)
  docs-calls s ((unanswered e, op) ∷ cs) devices h =
      docs-calls (call s (unanswered e, op)) cs (step devices (timed millis op))
        (docs-next s (unanswered e) op devices h)

module _ {Client : Type 0} (order : List Device → List Device)
    (permutes : (docs : List Device) → Perm (order docs) docs) (s : MongoDevices Client)
    (devices : DeviceStore) (h : HoldsDocs s devices) where
  selected_alike :
      (q : Device → Bool)
      → Perm (order (select q (values s.collection))) (select q (values devices))
  selected_alike q =
      subst (λ m. Perm (order (select q (values s.collection))) (select q (values m))) h.1
        (permutes (select q (values s.collection)))

  pub user-docs :
      (user_id : String)
      → SameDevices
          (get_active_devices served none order s user_id)
          (memory_devices devices user_id)
  unfolding get_active_devices memory_devices
  user-docs user_id = rw (h.0) (selected_alike (λ d. d.user_id == user_id && d.is_active))

  pub anonymous-docs :
      (anonymous_id : String)
      → SameDevices
          (get_active_devices_by_anonymous_id served none order s anonymous_id)
          (memory_anonymous devices anonymous_id)
  unfolding get_active_devices_by_anonymous_id memory_anonymous
  anonymous-docs anonymous_id =
      rw (h.0) (selected_alike (λ d. d.anonymous_id == anonymous_id && d.is_active))

  pub batch-docs :
      (user_ids : List String)
      → SameBatch
          (get_active_devices_batch served none order s user_ids)
          (memory_batch devices user_ids)
  unfolding get_active_devices_batch memory_batch
  batch-docs user_ids = rw (h.0) (λ id.
      rw (sym (group_docs-wanted user_ids (values devices) []))
        (group_docs-Perm id (selected_alike (λ d. wants user_ids d.user_id && d.is_active))))
