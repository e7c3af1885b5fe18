-- ===== src/Base/Ids.antt =====
-- The formats that the records demand of their identifiers, as tests on code points.
use Prim.Native.Char.{code}
use text.Mathlib.TextLemmas.{nil-append, cons-append}
use cauco.Base.{
  ℕ, ◌≡◌, refl, ap, ◌∙◌, Bool, true, false, ◌&&◌, ◌||◌, List, [], ◌∷◌, ◌++◌, String, str_append,
  arith, leb, nat_beq, length, all,
}

-- The code points of a text.
unfoldable pub codes : String → List ℕ
codes String.[] = []
codes (String.◌∷◌ c s) = code c ∷ codes s

-- `[A-Za-z0-9_-]`
abbrev pub is_url_safe : ℕ → Bool
is_url_safe c =
    (leb b'A' c && leb c b'Z')
    || (leb b'a' c && leb c b'z')
    || (leb b'0' c && leb c b'9')
    || nat_beq c b'_'
    || nat_beq c b'-'

-- `[0-9a-f]`
abbrev pub is_hex : ℕ → Bool
is_hex c = (leb b'0' c && leb c b'9') || (leb b'a' c && leb c b'f')

-- `re.fullmatch(prefix + "[A-Za-z0-9_-]{20,}", text)`
unfoldable pub matches_opaque : List ℕ → List ℕ → Bool
matches_opaque [] text = leb 20 (length text) && all is_url_safe text
matches_opaque (p ∷ ps) [] = false
matches_opaque (p ∷ ps) (c ∷ text) = nat_beq p c && matches_opaque ps text

unfoldable pub is_opaque_id : String → String → Bool
unfolding codes matches_opaque
is_opaque_id prefix text = matches_opaque (codes prefix) (codes text)

-- `re.fullmatch("[0-9a-f]{64}", text)`
unfoldable pub is_sha256 : String → Bool
unfolding codes
is_sha256 text = nat_beq (length (codes text)) 64 && all is_hex (codes text)

codes-append : (s t : String) → codes (str_append s t) ≡ codes s ++ codes t
unfolding codes
codes-append String.[] t = rw nil-append
codes-append (String.◌∷◌ c s) t = rw cons-append (ap (λ r. code c ∷ r) (codes-append s t))

matches_opaque-append : (ps text : List ℕ) → matches_opaque ps (ps ++ text) ≡ matches_opaque [] text
unfolding matches_opaque
matches_opaque-append [] text = refl
matches_opaque-append (p ∷ ps) text = ground (arith, matches_opaque-append ps text)

-- A prefix in front of a long enough URL-safe token gives an opaque identifier.
pub is_opaque_id-append :
    (prefix token : String)
    → is_opaque_id "" token ≡ true
    → is_opaque_id prefix (str_append prefix token) ≡ true
unfolding is_opaque_id
is_opaque_id-append prefix token h =
    rw codes-append (matches_opaque-append (codes prefix) (codes token) ∙ h)
