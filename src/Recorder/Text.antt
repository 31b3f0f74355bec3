-- ===== src/Recorder/Text.antt =====
-- Texts as lists of code points, and JSON objects as partial functions on field names, which is all
-- that a canonical encoding with sorted keys depends on. Python finds the integer n, a float of that
-- value and, of 0 and 1, a Boolean equal, though their encodings differ.
pub use smart_market_data_gatewa.Prelude.Text.{Text, text_eq, text_lt, text_eq→eq, text_eq_refl}
unfoldable pub use smart_market_data_gatewa.Prelude.Text.{insert_text}
use smart_market_data_gatewa.Prelude.{
  ℕ, Bool, true, false, ◌&&◌, ◌||◌, ◌==◌, leb, if◌then◌else◌, Option, none, some, [], ◌∷◌, length,
}

pub data Value : Type 0 where
  text : Text → Value
  num : ℕ → Value
  real : ℕ → Value
  negative_zero : Value
  truth : Bool → Value
  other : ℕ → Value

abbrev pub Object : Type 0
Object = ℕ → Option Value

-- `payload.get(field) == text`, and `== n`.
abbrev pub is_text : Option Value → Text → Bool
is_text (some (text s)) t = text_eq s t
is_text (some (num n)) t = false
is_text (some (real n)) t = false
is_text (some negative_zero) t = false
is_text (some (truth b)) t = false
is_text (some (other v)) t = false
is_text none t = false

abbrev pub is_num : Option Value → ℕ → Bool
is_num (some (num m)) n = m == n
is_num (some (real m)) n = m == n
is_num (some negative_zero) n = 0 == n
is_num (some (truth b)) n = (if b then 1 else 0) == n
is_num (some (text s)) n = false
is_num (some (other v)) n = false
is_num none n = false

-- `str.isspace`, on the ASCII spaces.
abbrev is_space : ℕ → Bool
is_space c = (c == 32) || (leb 9 c && leb c 13) || (leb 28 c && leb c 31)

-- `not value.strip()`
unfoldable pub is_blank : Text → Bool
is_blank [] = true
is_blank (c ∷ s) = is_space c && is_blank s

all_hex : Text → Bool
all_hex [] = true
all_hex (c ∷ s) = ((leb 48 c && leb c 57) || (leb 97 c && leb c 102)) && all_hex s

unfoldable pub is_digest : Text → Bool
unfolding all_hex
is_digest s = (length s == 64) && all_hex s

-- `d[field] = value`
abbrev pub set : Object → ℕ → Value → Object
set o field v = λ f. if field == f then some v else o f

-- `d.pop(field, None)`
abbrev pub pop : Object → ℕ → Object
pop o field = λ f. if field == f then none else o f
