-- ===== src/BatchSplitter/Split.antt =====
-- Split of batchsplitter.go: the batches are the input, cut into as few pieces as the size allows.
use mathlib.Core.List.{flatten, append-nil}
use native.Mathlib.Decide.{ℕ_discrete}
use mathlib.Core.Bool.{or-true}
use grnoti.Prelude.{
  ℕ, ◌-◌, zero, suc, ◌+◌, ◌*◌, ◌≤◌, ◌<◌, ◌≡◌, refl, ap, ◌∙◌, List, [], ◌∷◌, ◌++◌, arith, length,
  leb, take, drop, All, take-append-drop, length-take, length-drop,
}
use grnoti.Types.{Device}
use grnoti.BatchSplitter.{batches, split}

-- A batch that Split may return: not empty, and of at most `size` devices.
abbrev pub IsBatch : ℕ → List Device → Type 0
IsBatch size batch = (0 < length batch) × (length batch ≤ size)

batches-flatten :
    (fuel size : ℕ) (ds : List Device)
    → 0 < size
    → length ds ≤ fuel
    → flatten (batches fuel size ds) ≡ ds
unfolding batches flatten
batches-flatten fuel size [] p h = refl
batches-flatten zero size (d ∷ ds) p h = absurd (omega arith)
batches-flatten (suc fuel) size (d ∷ ds) p h =
    ap (◌++◌ (take size (d ∷ ds)))
      (batches-flatten fuel size (drop size (d ∷ ds)) p (omega (arith, length-drop size (d ∷ ds))))
    ∙ take-append-drop size (d ∷ ds)

batches-IsBatch :
    (fuel size : ℕ) (ds : List Device) → 0 < size → All (IsBatch size) (batches fuel size ds)
unfolding batches
batches-IsBatch fuel size [] p = tt
batches-IsBatch zero size (d ∷ ds) p = tt
batches-IsBatch (suc fuel) size (d ∷ ds) p = (
  (omega (arith, length-take size (d ∷ ds)), omega (arith, length-take size (d ∷ ds))),
  batches-IsBatch fuel size (drop size (d ∷ ds)) p,
)

batches_of_none :
    (fuel size : ℕ) (ds : List Device) → length ds ≡ 0 → length (batches fuel size ds) * size ≡ 0
unfolding batches
batches_of_none fuel size [] h = omega arith
batches_of_none fuel size (d ∷ ds) h = absurd (omega arith)

-- One more batch, after the rest were counted.
count_step :
    (size total left count : ℕ)
    → 0 < size
    → 0 < total
    → left ≡ total - size
    → (left ≡ 0 → count * size ≡ 0)
    → (left ≤ count * size) × (count * size < left + size)
    → (total ≤ suc count * size) × (suc count * size < total + size)
count_step size total left count p q e z ih = elim (ℕ_discrete left 0) [
  | yes done ↦ omega (arith, z done)
  | no more ↦ omega arith
]

batches_count :
    (fuel size : ℕ) (ds : List Device)
    → 0 < size
    → length ds ≤ fuel
    → (length ds ≤ length (batches fuel size ds) * size)
      × (length (batches fuel size ds) * size < length ds + size)
unfolding batches
batches_count fuel size [] p h = omega arith
batches_count zero size (d ∷ ds) p h = absurd (omega arith)
batches_count (suc fuel) size (d ∷ ds) p h =
    let left = drop size (d ∷ ds) in
    let shorter = length-drop size (d ∷ ds) in
    count_step size (suc (length ds)) (length left) (length (batches fuel size left)) p
      (omega arith) shorter (batches_of_none fuel size left)
      (batches_count fuel size left p (omega (arith, shorter)))

split-eq-batches :
    (ds : List Device) (size : ℕ)
    → 0 < size
    → 0 < length ds
    → split ds size ≡ batches (length ds) size ds
unfolding split
split-eq-batches ds size p q = ground arith

-- With a positive size and a device to send to, Split loses, repeats and reorders nothing: the
-- batches joined are the input. Each is non-empty and within the size, and their number is the
-- length of the input divided by the size, rounded up.
pub split_covers :
    (ds : List Device) (size : ℕ)
    → 0 < size
    → 0 < length ds
    → (flatten (split ds size) ≡ ds)
      × All (IsBatch size) (split ds size)
      × (length ds ≤ length (split ds size) * size)
      × (length (split ds size) * size < length ds + size)
split_covers ds size p q =
    let count = batches_count (length ds) size ds p (omega arith) in
    rw (split-eq-batches ds size p q) (
      batches-flatten (length ds) size ds p (omega arith),
      batches-IsBatch (length ds) size ds p,
      count.0,
      count.1,
    )

-- In every case, also for a size of 0 and for no devices, the batches joined are the input.
pub flatten-split : (ds : List Device) (size : ℕ) → flatten (split ds size) ≡ ds
unfolding split flatten
flatten-split [] size = rw (or-true (leb size 0))
flatten-split (d ∷ ds) zero = append-nil (d ∷ ds)
flatten-split (d ∷ ds) (suc n) = (split_covers (d ∷ ds) (suc n) (omega arith) (omega arith)).0
