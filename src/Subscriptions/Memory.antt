-- ===== src/Subscriptions/Memory.antt =====
-- A server in memory for the registry: rows of scores by member number, sets, state keys and a log.
use smart_market_data_gatewa.Prelude.{
  ℕ, zero, suc, ◌+◌, ◌≡◌, ◌≢◌, refl, Bool, true, false, not, ◌==◌, if◌then◌else◌, is_some, Option,
  none, some, List, [], ◌∷◌, ◌++◌, arith,
}
use smart_market_data_gatewa.Prelude.Text.{
  Text, text_eq, text_eq_iff, has_text, add_text, discard_text,
}
use smart_market_data_gatewa.Collector.{Control}
use smart_market_data_gatewa.Subscriptions.Server.{
  SortedSets, IsSortedSets, Sets, States, IsStates, above,
}

abbrev Row : Type 0
Row = List (Option ℕ)

unfoldable pub nth : Row → ℕ → Option ℕ
nth [] m = none
nth (o ∷ row) zero = o
nth (o ∷ row) (suc m) = nth row m

unfoldable pub put : Option ℕ → ℕ → Row → Row
put o zero [] = o ∷ []
put o (suc m) [] = none ∷ put o m []
put o zero (p ∷ row) = o ∷ row
put o (suc m) (p ∷ row) = p ∷ put o m row

unfoldable pub count : Row → ℕ
count [] = 0
count (none ∷ row) = count row
count (some v ∷ row) = count row + 1

unfoldable pub purge : ℕ → Row → Row
purge now [] = []
purge now (o ∷ row) = above now o ∷ purge now row

nth-put :
    (o : Option ℕ) (m : ℕ) (row : Row) (n : ℕ)
    → nth (put o m row) n ≡ (if m == n then o else nth row n)
unfolding nth put
nth-put o zero [] zero = ground arith
nth-put o zero [] (suc n) = ground arith
nth-put o (suc m) [] zero = ground arith
nth-put o (suc m) [] (suc n) = ground (arith, nth-put o m [] n)
nth-put o zero (p ∷ row) zero = ground arith
nth-put o zero (p ∷ row) (suc n) = ground arith
nth-put o (suc m) (p ∷ row) zero = ground arith
nth-put o (suc m) (p ∷ row) (suc n) = ground (arith, nth-put o m row n)

nth-purge : (now : ℕ) (row : Row) (n : ℕ) → nth (purge now row) n ≡ above now (nth row n)
unfolding nth purge
nth-purge now [] n = refl
nth-purge now (o ∷ row) zero = refl
nth-purge now (o ∷ row) (suc n) = nth-purge now row n

count-none : (row : Row) → count row ≡ 0 → (m : ℕ) → nth row m ≡ none
unfolding nth count
count-none [] h m = refl
count-none (none ∷ row) h zero = refl
count-none (none ∷ row) h (suc m) = count-none row h m
count-none (some v ∷ row) h m = absurd (omega arith)

none-count : (row : Row) → ((m : ℕ) → nth row m ≡ none) → count row ≡ 0
unfolding nth count
none-count [] h = refl
none-count (none ∷ row) h = none-count row λ m. h (suc m)
none-count (some v ∷ row) h = let e = h 0 in absurd cc

count-some : (row : Row) → count row ≢ 0 → (n : ℕ) × (w : ℕ) × (nth row n ≡ some w)
unfolding nth count
count-some [] h = absurd (h refl)
count-some (none ∷ row) h = let (n, w, e) = count-some row h in (suc n, w, e)
count-some (some v ∷ row) h = (0, v, refl)

count_other :
    (row : Row) (m v : ℕ)
    → nth row m ≡ some v
    → count row ≢ 1
    → (n : ℕ) × (w : ℕ) × (m ≢ n) × (nth row n ≡ some w)
unfolding nth count
count_other [] m v e h = absurd cc
count_other (none ∷ row) zero v e h = absurd cc
count_other (some u ∷ row) zero v e h =
    let (n, w, e) = count-some row (λ z. h (omega arith)) in
    (suc n, w, (λ (z : 0 ≡ suc n). omega arith), e)
count_other (none ∷ row) (suc m) v e h =
    let (n, w, d, e) = count_other row m v e h in
    (suc n, w, (λ (z : suc m ≡ suc n). d (omega arith)), e)
count_other (some u ∷ row) (suc m) v e h = (0, u, (λ (z : suc m ≡ 0). omega arith), refl)

abbrev pub Table : Type 0
Table = List (Text × Row)

unfoldable pub lookup : Text → Table → Row
lookup k [] = []
lookup k ((j, row) ∷ table) = let rest = lookup k table in if text_eq j k then row else rest

unfoldable pub update : Text → (Row → Row) → Table → Table
update k f [] = (k, f []) ∷ []
update k f ((j, row) ∷ table) =
    let rest = (j, row) ∷ update k f table in if text_eq j k then (j, f row) ∷ table else rest

lookup-update :
    (k : Text) (f : Row → Row) (table : Table) (j : Text)
    → lookup j (update k f table) ≡ (if text_eq k j then f (lookup k table) else lookup j table)
unfolding lookup update
lookup-update k f [] j = ground arith
lookup-update k f ((i, row) ∷ table) j =
    ground (arith, lookup-update k f table j, text_eq_iff i k, text_eq_iff i j, text_eq_iff k j)

unfoldable pub keys : Table → List Text
keys [] = []
keys ((k, row) ∷ table) = k ∷ keys table

keys_full :
    (table : Table) (k : Text) (m v : ℕ)
    → nth (lookup k table) m ≡ some v
    → has_text (keys table) k ≡ true
unfolding lookup keys has_text nth
keys_full [] k m v h = absurd cc
keys_full ((j, row) ∷ table) k m v h = ground (arith, h, keys_full table k m v)

abbrev pub sorted_sets : SortedSets Table
sorted_sets = record {
  zremrangebyscore = λ s k now. update k (purge now) s;
  zadd = λ s k score member.
      (update k (put (some score) member) s, not (is_some (nth (lookup k s) member)));
  zrem = λ s k member. (update k (put none member) s, is_some (nth (lookup k s) member));
  zcard = λ s k. count (lookup k s);
  zscore = λ s k member. nth (lookup k s) member;
  scan = keys;
}

updated :
    (k : Text) (f : Row → Row) (s : Table) (j : Text) (m : ℕ)
    → nth (lookup j (update k f s)) m
      ≡ (if text_eq k j then nth (f (lookup j s)) m else nth (lookup j s) m)
updated k f s j m = ground (arith, lookup-update k f s j, text_eq_iff k j)

pub sorted_sets-IsSortedSets : IsSortedSets sorted_sets
sorted_sets-IsSortedSets = record {
  zscore-zremrangebyscore =
      λ s k now j m. ground (arith, updated k (purge now) s j m, nth-purge now (lookup j s) m);
  zscore-zadd = λ s k score member j m. ground (
    arith,
    updated k (put (some score) member) s j m,
    nth-put (some score) member (lookup j s) m,
  );
  zadd_new = λ s k score member. refl;
  zscore-zrem = λ s k member j m.
      ground (arith, updated k (put none member) s j m, nth-put none member (lookup j s) m);
  zrem_found = λ s k member. refl;
  zcard_zero = λ s k. (count-none (lookup k s), none-count (lookup k s));
  zcard_other = λ s k. count_other (lookup k s);
  scan_full = keys_full;
}

abbrev pub Connections : Type 0
Connections = ℕ → List Text

abbrev pub connections : Sets Connections
connections = record {
  sadd = λ s member symbol n. if member == n then add_text symbol (s n) else s n;
  srem = λ s member symbol n. if member == n then discard_text symbol (s n) else s n;
  smembers = λ s member. s member;
  delete = λ s member n. if member == n then [] else s n;
}

pub record Keyed : Type 0 where
  pub held : Text → Option Text
  pub log : List Control

abbrev set_missing : Keyed → Text → Text → Option Text → Keyed × Bool
set_missing s k v none = (record s { held = λ j. if text_eq k j then some v else s.held j }, true)
set_missing s k v (some w) = (s, false)

abbrev pub keyed : States Keyed
keyed = record {
  get = λ s k. s.held k;
  set_nx = λ s k v. set_missing s k v (s.held k);
  del = λ s k. record s { held = λ j. if text_eq k j then none else s.held j };
  xadd = λ s c. record s { log = s.log ++ c ∷ [] };
  published = λ s. s.log;
}

set_missing_log : (s : Keyed) (k v : Text) (o : Option Text) → (set_missing s k v o).0.log ≡ s.log
set_missing_log s k v none = refl
set_missing_log s k v (some w) = refl

pub keyed-IsStates : IsStates keyed
keyed-IsStates = record {
  set_nx_new = λ s k v h. rw h refl;
  set_nx_old = λ s k v w h. rw h refl;
  get-set_nx = λ s k v j h. rw h refl;
  published-set_nx = λ s k v. set_missing_log s k v (s.held k);
  get-del = λ s k j. refl;
  published-del = λ s k. refl;
  get-xadd = λ s c j. refl;
  published-xadd = λ s c. refl;
}
