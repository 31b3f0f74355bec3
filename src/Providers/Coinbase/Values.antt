-- ===== src/Providers/Coinbase/Values.antt =====
-- providers/coinbase.py: the functions at the end of the file, that read a value of a message or
-- raise. An error of the class CoinbaseProtocolError is a ValueError.
use smart_market_data_gatewa.Prelude.{
  ℕ, ◌+◌, Bool, true, false, ◌&&◌, ◌||◌, ◌==◌, leb, if◌then◌else◌, Option, none, some, List, [],
  ◌∷◌,
}
use smart_market_data_gatewa.Prelude.Text.{Text, upper}
use smart_market_data_gatewa.Prelude.Outcome.{
  Outcome, ok, raised, value_error, arithmetic_error, ◌>>=◌,
}
use smart_market_data_gatewa.Domain.Evidence.{Datetime}
use smart_market_data_gatewa.Providers.Coinbase.Json.{
  Json, null, scalar, string, array, object, Items, nothing, item, Fields, Number, nan, infinite,
  negative_infinite, negative, amount, Python, str, str_or_empty, strip,
}

-- `_mapping_sequence`
abbrev objects : Json → Outcome Fields
objects (object fields) = ok fields
objects null = raised value_error
objects (scalar truth t) = raised value_error
objects (string t) = raised value_error
objects (array items) = raised value_error

unfoldable pub mapping_items : Items → Outcome (List Fields)
mapping_items nothing = ok []
mapping_items (item v items) = do fields ← objects v; rest ← mapping_items items; ok (fields ∷ rest)

abbrev pub mapping_sequence : Json → Outcome (List Fields)
mapping_sequence (array items) = mapping_items items
mapping_sequence null = raised value_error
mapping_sequence (scalar truth t) = raised value_error
mapping_sequence (string t) = raised value_error
mapping_sequence (object fields) = raised value_error

-- The characters of a symbol.
abbrev is_allowed : ℕ → Bool
is_allowed c =
    (leb 65 c && leb c 90)
    || (leb 48 c && leb c 57)
    || (c == 46)
    || (c == 95)
    || (c == 58)
    || (c == 45)

unfoldable pub all_allowed : Text → Bool
all_allowed [] = true
all_allowed (c ∷ t) = is_allowed c && all_allowed t

abbrev checked_symbol : Text → Outcome Text
checked_symbol [] = raised value_error
checked_symbol (c ∷ t) = if all_allowed (c ∷ t) then ok (c ∷ t) else raised value_error

-- text.replace("Z", "+00:00")
unfoldable pub replace_z : Text → Text
replace_z [] = []
replace_z (c ∷ t) =
    let rest = replace_z t in if c == 90 then 43 ∷ 48 ∷ 48 ∷ 58 ∷ 48 ∷ 48 ∷ rest else c ∷ rest

abbrev pub zoned : Option Datetime → Outcome Datetime
zoned none = raised value_error
zoned (some t) = if t.aware then ok t else raised value_error

abbrev parsed : Option Number → Outcome Number
parsed none = raised value_error
parsed (some n) = ok n

-- A number that is no NaN and not negative. The units of an infinite one count for nothing.
pub record Amount : Type 0 where
  pub units : ℕ
  pub is_infinite : Bool

abbrev pub finite : ℕ → Amount
finite n = record { units = n; is_infinite = false }

abbrev infinity : Amount
infinity = record { units = 1; is_infinite = true }

-- The sum of two amounts.
abbrev pub plus : Amount → Amount → Amount
plus a b = record { units = a.units + b.units; is_infinite = a.is_infinite || b.is_infinite }

-- `number <= 0` and `number < 0` of a NaN raise decimal.InvalidOperation, an ArithmeticError.
abbrev pub positive : Number → Outcome Amount
positive nan = raised arithmetic_error
positive infinite = ok infinity
positive negative_infinite = raised value_error
positive (negative n) = raised value_error
positive (amount n) = if n == 0 then raised value_error else ok (finite n)

abbrev non_negative : Number → Outcome Amount
non_negative nan = raised arithmetic_error
non_negative infinite = ok infinity
non_negative negative_infinite = raised value_error
non_negative (negative n) = raised value_error
non_negative (amount n) = ok (finite n)

abbrev pub present : Outcome Amount → Outcome (Option Amount)
present (ok n) = ok (some n)
present (raised e) = raised e

module _ (py : Python) where
  -- `_symbol`
  unfoldable pub symbol_of : Json → Outcome Text
  symbol_of value = checked_symbol (upper (strip (str_or_empty py value)))

  abbrev text_timestamp : Text → Outcome Datetime
  text_timestamp t = zoned (py.fromisoformat (replace_z t))

  -- `_timestamp`
  unfoldable pub timestamp : Json → Outcome Datetime
  timestamp null = raised value_error
  timestamp (scalar truth t) = text_timestamp t
  timestamp (string t) = text_timestamp t
  timestamp (array items) = text_timestamp (str py (array items))
  timestamp (object fields) = text_timestamp (str py (object fields))

  unfoldable pub decimal : Json → Outcome Number
  decimal value = parsed (py.decimal (str py value))

  unfoldable pub positive_decimal : Json → Outcome Amount
  positive_decimal value = do n ← decimal value; positive n

  unfoldable pub non_negative_decimal : Json → Outcome Amount
  non_negative_decimal value = do n ← decimal value; non_negative n

  -- `value is None or value == ""` is no number.
  abbrev pub optional : (Json → Outcome Amount) → Json → Outcome (Option Amount)
  optional read null = ok none
  optional read (string []) = ok none
  optional read (string (c ∷ t)) = present (read (string (c ∷ t)))
  optional read (scalar truth t) = present (read (scalar truth t))
  optional read (array items) = present (read (array items))
  optional read (object fields) = present (read (object fields))

  abbrev pub optional_positive_decimal : Json → Outcome (Option Amount)
  optional_positive_decimal = optional positive_decimal

  abbrev pub optional_non_negative_decimal : Json → Outcome (Option Amount)
  optional_non_negative_decimal = optional non_negative_decimal
