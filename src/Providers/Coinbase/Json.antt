-- ===== src/Providers/Coinbase/Json.antt =====
-- JSON values as `json.loads` gives them, and Python's functions on them and on texts that
-- providers/coinbase.py calls.
use smart_market_data_gatewa.Prelude.{
  ℕ, Bool, true, false, ◌&&◌, ◌||◌, ◌==◌, leb, not, if◌then◌else◌, Option, [], ◌∷◌,
}
use smart_market_data_gatewa.Prelude.Text.{Text, text_eq}
use smart_market_data_gatewa.Domain.Evidence.{Datetime}

-- A number or a Boolean is its text by `str`, and whether it is true.
mutual
  pub data Json : Type 0 where
    null : Json
    scalar : Bool → Text → Json
    string : Text → Json
    array : Items → Json
    object : Fields → Json

  pub data Items : Type 0 where
    nothing : Items
    item : Json → Items → Items

  pub data Fields : Type 0 where
    empty : Fields
    field : Text → Json → Fields → Fields

-- payload.get(name, default)
unfoldable pub get_or : Fields → Text → Json → Json
get_or empty name default = default
get_or (field n v fields) name default = if text_eq n name then v else get_or fields name default

-- payload.get(name)
abbrev pub get : Fields → Text → Json
get fields name = get_or fields name null

-- What `Decimal` reads of a text, in some fixed unit.
pub data Number : Type 0 where
  nan infinite negative_infinite : Number
  negative amount : ℕ → Number

-- Of Python and its libraries: `str` of a list or a dict, `Decimal` and `datetime.fromisoformat` of
-- a text, `none` for an error, `uuid5` of a text under the namespace of URLs, and the numbers that
-- stand for the texts of symbols.
pub record Python : Type 0 where
  pub repr : Json → Text
  pub decimal : Text → Option Number
  pub fromisoformat : Text → Option Datetime
  pub uuid5 : Text → ℕ
  pub code : Text → ℕ

-- "None"
abbrev none_text : Text
none_text = 78 ∷ 111 ∷ 110 ∷ 101 ∷ []

abbrev pub str : Python → Json → Text
str py null = none_text
str py (scalar truth t) = t
str py (string t) = t
str py (array items) = py.repr (array items)
str py (object fields) = py.repr (object fields)

abbrev is_empty : Text → Bool
is_empty [] = true
is_empty (c ∷ t) = false

-- Whether a value is true, and `str(value or "")`.
abbrev truthy : Json → Bool
truthy null = false
truthy (scalar truth t) = truth
truthy (string t) = not (is_empty t)
truthy (array nothing) = false
truthy (array (item v items)) = true
truthy (object empty) = false
truthy (object (field n v fields)) = true

abbrev pub str_or_empty : Python → Json → Text
str_or_empty py value = if truthy value then str py value else []

-- `str.strip`, of the ASCII spaces.
abbrev is_space : ℕ → Bool
is_space c = (c == 32) || (leb 9 c && leb c 13) || (leb 28 c && leb c 31)

unfoldable pub lstrip : Text → Text
lstrip [] = []
lstrip (c ∷ t) = let rest = lstrip t in if is_space c then rest else c ∷ t

abbrev kept_before : ℕ → Text → Text
kept_before c [] = if is_space c then [] else c ∷ []
kept_before c (d ∷ t) = c ∷ d ∷ t

unfoldable pub rstrip : Text → Text
rstrip [] = []
rstrip (c ∷ t) = kept_before c (rstrip t)

unfoldable pub strip : Text → Text
strip t = rstrip (lstrip t)
