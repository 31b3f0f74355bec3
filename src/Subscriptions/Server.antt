-- ===== src/Subscriptions/Server.antt =====
-- The Redis commands of subscriptions.py, as interfaces with their documented behaviour: on sorted
-- sets of connections, on sets of symbols, and on the state keys with the stream of controls. Keys
-- of the three kinds have different prefixes, so they are three parts of the server. Times to live
-- of whole keys are left out.
use smart_market_data_gatewa.Prelude.{
  ℕ, ◌≡◌, ◌≢◌, ◌↔◌, Bool, true, false, ◌&&◌, not, ◌==◌, leb, if◌then◌else◌, is_some, Option, none,
  some, List, [], ◌∷◌, ◌++◌,
}
use smart_market_data_gatewa.Prelude.Text.{Text, text_eq, has_text}
use smart_market_data_gatewa.Collector.{Control}

-- A sorted set under each key: a score for each member.
pub record SortedSets (Z : Type 0) : Type 0 where
  pub zremrangebyscore : Z → Text → ℕ → Z
  pub zadd : Z → Text → ℕ → ℕ → Z × Bool
  pub zrem : Z → Text → ℕ → Z × Bool
  pub zcard : Z → Text → ℕ
  pub zscore : Z → Text → ℕ → Option ℕ
  -- the keys of one whole iteration of `SCAN` with the prefix of the symbols
  pub scan : Z → List Text

abbrev pub above : ℕ → Option ℕ → Option ℕ
above now none = none
above now (some score) = if leb score now then none else some score

pub record IsSortedSets {Z : Type 0} (z : SortedSets Z) : Type 0 where
  pub zscore-zremrangebyscore :
      (s : Z) (k : Text) (now : ℕ) (j : Text) (m : ℕ)
      → z.zscore (z.zremrangebyscore s k now) j m
        ≡ (if text_eq k j then above now (z.zscore s j m) else z.zscore s j m)
  pub zscore-zadd :
      (s : Z) (k : Text) (score member : ℕ) (j : Text) (m : ℕ)
      → z.zscore (z.zadd s k score member).0 j m
        ≡ (if text_eq k j && member == m then some score else z.zscore s j m)
  pub zadd_new :
      (s : Z) (k : Text) (score member : ℕ)
      → (z.zadd s k score member).1 ≡ not (is_some (z.zscore s k member))
  pub zscore-zrem :
      (s : Z) (k : Text) (member : ℕ) (j : Text) (m : ℕ)
      → z.zscore (z.zrem s k member).0 j m
        ≡ (if text_eq k j && member == m then none else z.zscore s j m)
  pub zrem_found :
      (s : Z) (k : Text) (member : ℕ) → (z.zrem s k member).1 ≡ is_some (z.zscore s k member)
  pub zcard_zero : (s : Z) (k : Text) → (z.zcard s k ≡ 0) ↔ ((m : ℕ) → z.zscore s k m ≡ none)
  pub zcard_other :
      (s : Z) (k : Text) (m v : ℕ)
      → z.zscore s k m ≡ some v
      → z.zcard s k ≢ 1
      → (n : ℕ) × (w : ℕ) × (m ≢ n) × (z.zscore s k n ≡ some w)
  pub scan_full :
      (s : Z) (k : Text) (m v : ℕ) → z.zscore s k m ≡ some v → has_text (z.scan s) k ≡ true

pub record Sets (C : Type 0) : Type 0 where
  pub sadd : C → ℕ → Text → C
  pub srem : C → ℕ → Text → C
  pub smembers : C → ℕ → List Text
  pub delete : C → ℕ → C

-- The state key of a symbol, and the history of the controls that were added to the stream, oldest
-- first: also of those that the stream's MAXLEN has trimmed since.
pub record States (U : Type 0) : Type 0 where
  pub get : U → Text → Option Text
  pub set_nx : U → Text → Text → U × Bool
  pub del : U → Text → U
  pub xadd : U → Control → U
  pub published : U → List Control

pub record IsStates {U : Type 0} (u : States U) : Type 0 where
  pub set_nx_new : (s : U) (k v : Text) → u.get s k ≡ none → (u.set_nx s k v).1 ≡ true
  pub set_nx_old : (s : U) (k v w : Text) → u.get s k ≡ some w → u.set_nx s k v ≡ (s, false)
  pub get-set_nx :
      (s : U) (k v j : Text)
      → u.get s k ≡ none
      → u.get (u.set_nx s k v).0 j ≡ (if text_eq k j then some v else u.get s j)
  pub published-set_nx : (s : U) (k v : Text) → u.published (u.set_nx s k v).0 ≡ u.published s
  pub get-del :
      (s : U) (k j : Text) → u.get (u.del s k) j ≡ (if text_eq k j then none else u.get s j)
  pub published-del : (s : U) (k : Text) → u.published (u.del s k) ≡ u.published s
  pub get-xadd : (s : U) (c : Control) (j : Text) → u.get (u.xadd s c) j ≡ u.get s j
  pub published-xadd : (s : U) (c : Control) → u.published (u.xadd s c) ≡ u.published s ++ c ∷ []
