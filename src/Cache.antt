-- ===== src/Cache.antt =====
-- The shared cache behind cache.preferences.go, cache.idempotency.go and cache.experiment.go. It is
-- grcache.Cache, a package outside of the repository, so it is a parameter: a state, whose
-- operations return the state that they leave, and the documented behaviour of tags and entries
-- as a record of laws. Entries may expire or be evicted at any operation, and every operation may
-- fail. `Raw` is the type of the stored bytes.
pub mod Tests
use grnoti.Prelude.{
  ◌≡◌, ◌⊎◌, Bool, false, Option, none, some, Result, ok, List, [], ◌∷◌, String, ◌||◌, ◌==◌,
}
use grnoti.Prelude.Int.{ℤ}
use grnoti.Types.{Error}

-- What Get gives: bytes, ErrKeyNotFound, or another error.
pub data Read (Raw : Type 0) : Type 0 where
  found : Raw → Read Raw
  missing : Read Raw
  failed : Error → Read Raw

pub record Cache (Raw C : Type 0) : Type 0 where
  pub get : C → String → Read Raw × C
  pub exists : C → String → Result Error Bool × C
  pub set : C → String → Raw → ℤ → List String → Option Error × C
  pub invalidate_tag : C → String → Option Error × C

abbrev pub has_tag : String → List String → Bool
has_tag tag [] = false
has_tag tag (first ∷ tags) = first == tag || has_tag tag tags

-- An entry that may be read comes from a Set of these bytes under this key with these tags, and
-- no InvalidateTag of one of its tags has succeeded since.
pub record CacheLaws {Raw C : Type 0} (cache : Cache Raw C) : Type 1 where
  pub Entry : C → String → Raw → List String → Type 0
  pub get-Entry :
      (c : C) (key : String) (raw : Raw)
      → (cache.get c key).0 ≡ found raw
      → (tags : List String) × Entry c key raw tags
  pub Entry-get :
      (c : C) (key k : String) (r : Raw) (ts : List String)
      → Entry (cache.get c key).1 k r ts
      → Entry c k r ts
  pub Entry-set :
      (c : C) (key k : String) (raw r : Raw) (ttl : ℤ) (tags ts : List String)
      → Entry (cache.set c key raw ttl tags).1 k r ts
      → Entry c k r ts ⊎ ((k ≡ key) × (r ≡ raw) × (ts ≡ tags))
  pub Entry-invalidate :
      (c : C) (tag k : String) (r : Raw) (ts : List String)
      → Entry (cache.invalidate_tag c tag).1 k r ts
      → Entry c k r ts × ((cache.invalidate_tag c tag).0 ≡ none → has_tag tag ts ≡ false)
