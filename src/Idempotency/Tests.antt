-- ===== src/Idempotency/Tests.antt =====
-- The idempotency store over a cache that is a list of keys with their times to live.
use grnoti.Prelude.{
  arith, ℕ, length, if◌then◌else◌, ◌≡◌, refl, Bool, true, false, ◌==◌, none, ok, err, List, [], ◌∷◌,
  String,
}
use grnoti.Prelude.Int.{ℤ, pos, negsuc}
use grnoti.Types.{err_closed, wrapped, joined, err_backend_unavailable}
use grnoti.Cache.{Cache, missing}
use grnoti.Experiment.Tests.{idle}
use grnoti.Calls.{History, mark_processed as marks, is_processed as checks}
use grnoti.Idempotency.{is_processed, mark_processed}
use grnoti.Idempotency.Marks.{Expiring, is_alive, with_cache, is_marked, marks_expire}

-- A key, the reading of the clock when it was set, and its time to live.
pub record Item : Type 0 where
  pub key : String
  pub set_at : ℕ
  pub ttl : ℕ

abbrev has_key : List Item → ℕ → String → Bool
has_key [] now key = false
has_key (i ∷ rest) now key =
    if i.key == key then is_alive i.set_at i.ttl now else has_key rest now key

-- A negative time to live leaves the keys as they are.
abbrev with_key : List Item → ℕ → String → ℤ → List Item
with_key c now key (pos n) = record { key = key; set_at = now; ttl = n } ∷ c
with_key c now key (negsuc n) = c

abbrev key_cache : ℕ → Cache String (List Item)
key_cache now = record {
  get = λ c key. (missing, c);
  exists = λ c key. (ok (has_key c now key), c);
  set = λ c key raw ttl tags. (none, with_key c now key ttl);
  invalidate_tag = λ c tag. (none, c);
}

-- The same cache while its backend is down.
abbrev down_cache : Cache String (List Item)
down_cache = record (key_cache 0) { exists = λ c key. (err err_closed, c) }

key_cache-Expiring : Expiring key_cache
key_cache-Expiring = record {
  has = has_key;
  exists_lem = λ c now key. refl;
  has-exists = λ c now later key other p. refl;
  has-set = λ c now later key other raw ttl tags p. refl;
}

marked_is_processed :
    (is_processed (key_cache 9) (mark_processed (key_cache 5) [] "now" "e1" (negsuc 3)).1 "e1").0
    ≡ ok true
unfolding is_processed mark_processed
marked_is_processed = refl

expired_is_forgotten :
    (is_processed (key_cache 9) (mark_processed (key_cache 5) [] "now" "e1" (pos 3)).1 "e1").0
    ≡ ok false
unfolding is_processed mark_processed
expired_is_forgotten = refl

outage_is_reported :
    (is_processed down_cache [] "e1").0
    ≡ err (wrapped "grnoti: idempotency check for e1" (joined err_closed err_backend_unavailable))
unfolding is_processed
outage_is_reported = refl

-- Each call takes one tick; the mark is one tick old and lasts for ten.
abbrev past : History
past = checks "e2" ∷ marks "e1" (pos 10) ∷ []

marks_expire_example :
    (with_cache key_cache length (λ h. "now") [] idle).is_processed_reply past "e1"
    ≡ ok (is_marked length past (length past) "e1")
unfolding key_cache-Expiring
marks_expire_example =
    marks_expire key_cache length (λ h. "now") [] key_cache-Expiring (λ now key. refl)
      (λ call h. omega arith) idle past "e1"
