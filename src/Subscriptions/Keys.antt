-- ===== src/Subscriptions/Keys.antt =====
-- subscriptions.py: the keys of a symbol, and the way back that `cleanup_expired` takes.
use smart_market_data_gatewa.Prelude.{
  ◌≡◌, ◌↔◌, ◌∙◌, sym, refl, ap, Bool, false, ◌||◌, ◌==◌, if◌then◌else◌, [], ◌∷◌, arith,
}
use smart_market_data_gatewa.Prelude.Text.{Text, text_eq}

-- f"smdg:sub:symbol:{symbol}"
unfoldable pub symbol_key : Text → Text
symbol_key symbol =
    115 ∷ 109 ∷ 100 ∷ 103 ∷ 58 ∷ 115 ∷ 117 ∷ 98 ∷ 58 ∷ 115 ∷ 121 ∷ 109 ∷ 98 ∷ 111 ∷ 108 ∷ 58
    ∷ symbol

-- f"smdg:sub:upstream-state:{symbol}"
unfoldable pub state_key : Text → Text
state_key symbol =
    115 ∷ 109 ∷ 100 ∷ 103 ∷ 58 ∷ 115 ∷ 117 ∷ 98 ∷ 58 ∷ 117 ∷ 112 ∷ 115 ∷ 116 ∷ 114 ∷ 101 ∷ 97 ∷ 109
    ∷ 45 ∷ 115 ∷ 116 ∷ 97 ∷ 116 ∷ 101 ∷ 58 ∷ symbol

unfoldable pub has_colon : Text → Bool
has_colon [] = false
has_colon (c ∷ s) = c == 58 || has_colon s

-- `key.rsplit(":", 1)[-1]`
unfoldable pub last_part : Text → Text
last_part [] = []
last_part (c ∷ s) =
    let rest = last_part s in if has_colon s then rest else if c == 58 then s else c ∷ s

last_part_plain : (s : Text) → has_colon (last_part s) ≡ false
unfolding last_part has_colon
last_part_plain [] = refl
last_part_plain (c ∷ s) = ground (arith, last_part_plain s)

has_colon-symbol_key : (s : Text) → has_colon s ≡ false → last_part (symbol_key s) ≡ s
unfolding last_part symbol_key has_colon
has_colon-symbol_key s h = rw h refl

last_part-symbol_key_colon : (s : Text) → last_part (symbol_key s) ≡ s → has_colon s ≡ false
last_part-symbol_key_colon s h = ap has_colon (sym h) ∙ last_part_plain (symbol_key s)

-- The symbol that is read back from a key is the symbol of the key exactly if that has no colon.
pub last_part-symbol_key : (s : Text) → (last_part (symbol_key s) ≡ s) ↔ (has_colon s ≡ false)
last_part-symbol_key s = (last_part-symbol_key_colon s, has_colon-symbol_key s)

pub text_eq-state_key : (s t : Text) → text_eq (state_key s) (state_key t) ≡ text_eq s t
unfolding state_key
text_eq-state_key s t = refl

pub text_eq-symbol_key : (s t : Text) → text_eq (symbol_key s) (symbol_key t) ≡ text_eq s t
unfolding symbol_key
text_eq-symbol_key s t = refl
