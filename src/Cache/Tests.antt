-- ===== src/Cache/Tests.antt =====
-- A cache that is a list of entries, for the tests of the components that use a cache.
use grnoti.Prelude.{
  ◌≡◌, ◌⊎◌, refl, sym, ap, ◌∙◌, eq_iff, Bool-cases, true, false, none, ok, List, [], ◌∷◌, String,
  ◌==◌, inl, inr, arith, if◌then◌else◌, if_cases,
}
use grnoti.Cache.{Cache, CacheLaws, Read, found, missing, has_tag}

pub record Item (Raw : Type 0) : Type 0 where
  pub key : String
  pub raw : Raw
  pub tags : List String

module _ {Raw : Type 0} where
  abbrev Occurs : List (Item Raw) → String → Raw → List String → Type 0
  Occurs [] k r ts = ⊥
  Occurs (i ∷ rest) k r ts = ((k ≡ i.key) × (r ≡ i.raw) × (ts ≡ i.tags)) ⊎ Occurs rest k r ts

  abbrev read_item : List (Item Raw) → String → Read Raw
  read_item [] key = missing
  read_item (i ∷ rest) key = if i.key == key then found i.raw else read_item rest key

  abbrev drop_tag : List (Item Raw) → String → List (Item Raw)
  drop_tag [] tag = []
  drop_tag (i ∷ rest) tag = if has_tag tag i.tags then drop_tag rest tag else i ∷ drop_tag rest tag

  abbrev pub list_cache : Cache Raw (List (Item Raw))
  list_cache = record {
    get = λ c key. (read_item c key, c);
    exists = λ c key. (ok false, c);
    set = λ c key raw ttl tags. (none, record { key = key; raw = raw; tags = tags } ∷ c);
    invalidate_tag = λ c tag. (none, drop_tag c tag);
  }

  read_first :
      (i : Item Raw) (rest : List (Item Raw)) (key : String) (raw : Raw)
      → (i.key == key) ≡ true
      → read_item (i ∷ rest) key ≡ found raw
      → i.raw ≡ raw
  read_first i rest key raw same e = ground (arith, same, e)

  read_later :
      (i : Item Raw) (rest : List (Item Raw)) (key : String)
      → (i.key == key) ≡ false
      → read_item rest key ≡ read_item (i ∷ rest) key
  read_later i rest key differ = ground (arith, differ)

  read_item-Occurs :
      (c : List (Item Raw)) (key : String) (raw : Raw)
      → read_item c key ≡ found raw
      → (tags : List String) × Occurs c key raw tags
  read_item-Occurs [] key raw e = ground (arith, e)
  read_item-Occurs (i ∷ rest) key raw e = elim (Bool-cases (i.key == key)) [
    | inl same ↦ (
      i.tags,
      inl (sym ((eq_iff i.key key).0 same), sym (read_first i rest key raw same e), refl),
    )
    | inr differ ↦
        let later = read_item-Occurs rest key raw (read_later i rest key differ ∙ e) in
        (later.0, inr later.1)
  ]

  drop_tag-Occurs :
      (c : List (Item Raw)) (tag k : String) (r : Raw) (ts : List String)
      → Occurs (drop_tag c tag) k r ts
      → Occurs c k r ts × (has_tag tag ts ≡ false)
  drop_tag-Occurs [] tag k r ts e = absurd e
  drop_tag-Occurs (i ∷ rest) tag k r ts e =
      if_cases (λ x. Occurs x k r ts → Occurs (i ∷ rest) k r ts × (has_tag tag ts ≡ false))
        (has_tag tag i.tags) _ _
        (λ tagged o. let d = drop_tag-Occurs rest tag k r ts o in (inr d.0, d.1))
        (λ untagged o. elim o [
          | inl same ↦ (inl same, ap (has_tag tag) same.2 ∙ untagged)
          | inr later ↦ let d = drop_tag-Occurs rest tag k r ts later in (inr d.0, d.1)
        ])
        e

  pub list_cache-Laws : CacheLaws list_cache
  list_cache-Laws = record {
    Entry = Occurs;
    get-Entry = read_item-Occurs;
    Entry-get = λ c key k r ts e. e;
    Entry-set = λ c key k raw r ttl tags ts e. elim e [ inl new ↦ inr new | inr old ↦ inl old ];
    Entry-invalidate =
        λ c tag k r ts e. let d = drop_tag-Occurs c tag k r ts e in (d.0, λ done. d.1);
  }

  pub empty_list_cache :
      (key : String) (raw : Raw) (tags : List String) → ¬ list_cache-Laws.Entry [] key raw tags
  unfolding list_cache-Laws
  empty_list_cache key raw tags e = e
