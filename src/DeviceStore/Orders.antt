-- ===== src/DeviceStore/Orders.antt =====
-- The devices that a query gives in any order, against those of memory.go. The range of memory.go
-- over its map has any order as well.
use mathlib.Core.List.{Perm, append_assoc, append-nil}
use grnoti.Prelude.{
  ◌≡◌, refl, sym, ap, ◌∙◌, true, false, ◌&&◌, Result, ok, err, List, [], ◌∷◌, ◌++◌, String, ◌==◌,
  arith, select, eq_iff, Bool-cases, inl, inr,
}
use grnoti.Prelude.Orders.{select-Perm}
use grnoti.Prelude.Maps.{Map, lookup, insert, lookup-insert}
use grnoti.Types.{Device, Error}
use grnoti.DeviceStore.{devices_of, wants, collect_wanted}
use grnoti.DeviceStore.Mongo.{group_docs}

-- An answer that has exactly these devices, each as often, in any order.
abbrev pub SameDevices : Result Error (List Device) → List Device → Type 0
SameDevices (err e) ds = true ≡ false
SameDevices (ok found) ds = Perm found ds

-- An answer that has exactly these devices under each user, in any order.
abbrev pub SameBatch : Result Error (Map (List Device)) → Map (List Device) → Type 0
SameBatch (err e) batch = true ≡ false
SameBatch (ok found) batch =
    (id : String) → Perm (devices_of (lookup id found)) (devices_of (lookup id batch))

of_user : String → List Device → List Device
of_user id ds = select (λ (d : Device). d.user_id == id) ds

grouped_last :
    (id : String) (d : Device) (before : List Device) (out : Map (List Device)) (ds : List Device)
    → devices_of (lookup id out) ≡ before
    → devices_of (lookup id (insert d.user_id (devices_of (lookup d.user_id out) ++ (d ∷ [])) out))
        ++ of_user id ds
      ≡ before ++ of_user id (d ∷ ds)
unfolding of_user
grouped_last id d before out ds e = elim (Bool-cases (d.user_id == id)) [
  | inl same ↦
      rw (lookup-insert d.user_id id (devices_of (lookup d.user_id out) ++ (d ∷ [])) out, same)
        (ap (λ x. devices_of (lookup x out) ++ (d ∷ []) ++ of_user id ds)
            ((eq_iff d.user_id id).0 same)
          ∙ append_assoc (devices_of (lookup id out)) (d ∷ []) (of_user id ds)
          ∙ ap (λ x. x ++ (d ∷ of_user id ds)) e)
  | inr other ↦
      rw (lookup-insert d.user_id id (devices_of (lookup d.user_id out) ++ (d ∷ [])) out, other)
        (ap (λ x. x ++ of_user id ds) e)
]

-- The batch has under a user the user's devices.
group_docs-of_user :
    (id : String) (ds : List Device) (out : Map (List Device))
    → devices_of (lookup id (group_docs out ds)) ≡ devices_of (lookup id out) ++ of_user id ds
unfolding group_docs of_user
group_docs-of_user id [] out = sym (append-nil (devices_of (lookup id out)))
group_docs-of_user id (d ∷ ds) out =
    group_docs-of_user id ds (insert d.user_id (devices_of (lookup d.user_id out) ++ (d ∷ [])) out)
    ∙ grouped_last id d (devices_of (lookup id out)) out ds refl

pub group_docs-Perm :
    (id : String) {ds es : List Device}
    → Perm ds es
    → Perm (devices_of (lookup id (group_docs [] ds))) (devices_of (lookup id (group_docs [] es)))
unfolding of_user lookup
group_docs-Perm id {ds} {es} p =
    rw (group_docs-of_user id ds [], group_docs-of_user id es [])
      (select-Perm (λ (d : Device). d.user_id == id) p)

-- The batch of memory.go, as the grouping of the wanted devices.
pub group_docs-wanted :
    (user_ids : List String) (docs : List Device) (out : Map (List Device))
    → group_docs out (select (λ (d : Device). wants user_ids d.user_id && d.is_active) docs)
      ≡ collect_wanted user_ids out docs
unfolding group_docs collect_wanted
group_docs-wanted user_ids [] out = refl
group_docs-wanted user_ids (d ∷ docs) out = ground (
  arith,
  group_docs-wanted user_ids docs out,
  group_docs-wanted user_ids docs
      (insert d.user_id (devices_of (lookup d.user_id out) ++ (d ∷ [])) out),
)
