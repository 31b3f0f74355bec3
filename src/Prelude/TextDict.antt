-- ===== src/Prelude/TextDict.antt =====
-- Python's `dict` with texts for keys: an association list in the order of insertion.
use mathlib.Core.Path.{◌≡◌, refl}
use mathlib.Core.Option.{Option, none, some}
use mathlib.Core.List.{List, [], ◌∷◌}
use native.Mathlib.Omega.{arith}
use smart_market_data_gatewa.Prelude.Tests.{if◌then◌else◌}
use smart_market_data_gatewa.Prelude.Text.{Text, text_eq, text_lt, text_eq_iff}

abbrev pub TextDict : Type 0 → Type 0
TextDict V = List (Text × V)

-- d.get(k, default)
abbrev pub or_default : {V : Type 0} → Option V → V → V
or_default none default = default
or_default (some v) default = v

module _ {V : Type 0} where
  -- d.get(k)
  unfoldable pub find : TextDict V → Text → Option V
  find [] k = none
  find ((j, v) ∷ d) k = if text_eq j k then some v else find d k

  -- d[k] = v
  unfoldable pub assign : TextDict V → Text → V → TextDict V
  assign [] k v = (k, v) ∷ []
  assign ((j, w) ∷ d) k v = if text_eq j k then (j, v) ∷ d else (j, w) ∷ assign d k v

  pub find-assign :
      (d : TextDict V) (k j : Text) (v : V)
      → find (assign d k v) j ≡ (if text_eq k j then some v else find d j)
  unfolding find assign
  find-assign [] k j v = refl
  find-assign ((i, w) ∷ d) k j v =
      ground (arith, find-assign d k j v, text_eq_iff i k, text_eq_iff i j, text_eq_iff k j)

  -- sorted(d.items()), of distinct keys
  unfoldable pub insert_item : Text × V → TextDict V → TextDict V
  insert_item (k, v) [] = (k, v) ∷ []
  insert_item (k, v) ((j, w) ∷ d) =
      let rest = (j, w) ∷ insert_item (k, v) d in if text_lt k j then (k, v) ∷ (j, w) ∷ d else rest

  unfoldable pub sorted_items : TextDict V → TextDict V
  sorted_items [] = []
  sorted_items (i ∷ d) = insert_item i (sorted_items d)
