-- ===== src/Types/Fid.antt =====
-- validFID of types.go: the regular expression ^[cdef][A-Za-z0-9_-]{21}$ as a test on characters.
use Prim.Native.String.{String}
use grnoti.Prelude.{ℕ, Bool, false, ◌&&◌, ◌||◌, List, [], ◌∷◌, code, leb, eqb, length, all}

-- The code points of a text. `String` has its own `[]` and `∷`.
abbrev pub codes : String → List ℕ
codes String.[] = []
codes (String.◌∷◌ c s) = code c ∷ codes s

unfoldable pub is_fid_head : ℕ → Bool
is_fid_head c = eqb c b'c' || eqb c b'd' || eqb c b'e' || eqb c b'f'

unfoldable pub is_fid_char : ℕ → Bool
is_fid_char c =
    leb b'A' c && leb c b'Z'
    || leb b'a' c && leb c b'z'
    || leb b'0' c && leb c b'9'
    || eqb c b'_'
    || eqb c b'-'

unfoldable pub matches_fid_pattern : List ℕ → Bool
unfolding is_fid_head is_fid_char
matches_fid_pattern [] = false
matches_fid_pattern (c ∷ cs) = is_fid_head c && all is_fid_char cs && eqb (length cs) 21

unfoldable pub valid_fid : String → Bool
unfolding matches_fid_pattern
valid_fid s = matches_fid_pattern (codes s)

unfoldable pub all_valid_fids : List String → Bool
unfolding valid_fid
all_valid_fids = all valid_fid
