-- ===== src/Stream/Tests.antt =====
-- A server in memory, and an event, a poison entry and a contended candle on it.
use smart_market_data_gatewa.Prelude.{
  ℕ, ◌+◌, ◌≡◌, ◌≢◌, refl, Bool, true, false, leb, ◌==◌, ◌||◌, if◌then◌else◌, Option, none, some, [],
  ◌∷◌, arith, length,
}
use smart_market_data_gatewa.Prelude.Outcome.{raised, key_error, runtime_error}
use smart_market_data_gatewa.Domain.Quote.{
  sample, validate_market, check_schema, check_volume, check_flow, check_trade_count, check_depth,
}
use smart_market_data_gatewa.Stream.Redis.{Redis, IsRedis, Key, Value, number, key_eq, sequence}
use smart_market_data_gatewa.Stream.Cache.{Settings, attempts}
use smart_market_data_gatewa.Stream.Cache.Atomic.{Cached, attempts-Cached, attempts_settle}
use smart_market_data_gatewa.Stream.Sequence.{observe_all, observe_sequence}
use smart_market_data_gatewa.Stream.Sequence.Gaps.{skipped, disorders, observe_all_lem}
use smart_market_data_gatewa.Domain.Quote.Numbers.{numbers, largest}
use smart_market_data_gatewa.Stream.Process.{event, missing, process_one, decode}
use smart_market_data_gatewa.Stream.Process.Replay.{process_one_again}
use smart_market_data_gatewa.Stream.Process.Poison.{deliveries, deliveries-acked}

-- The strings and the acknowledged entries; the rest of the server is not observed.
pub record Memory : Type 0 where
  pub strings : Key → Option Value
  pub acknowledged : ℕ → Bool

abbrev written : Memory → Key → Value → Memory
written m k v = record m { strings = λ j. if key_eq k j then some v else m.strings j }

abbrev written_new : Memory → Key → Value → Option Value → Memory × Bool
written_new m k v none = (written m k v, true)
written_new m k v (some u) = (m, false)

abbrev next_number : Option Value → ℕ
next_number none = 1
next_number (some (number n)) = n + 1
next_number (some v) = 1

abbrev memory : Redis Memory
memory = record {
  get = λ m k. m.strings k;
  set = written;
  set_nx = λ m k v. written_new m k v (m.strings k);
  incr = λ m k. (written m k (number (next_number (m.strings k))), next_number (m.strings k));
  zadd = λ m a t. m;
  zremrangebyscore = λ m a t. m;
  publish = λ m e. m;
  xack = λ m i. record m { acknowledged = λ j. (i == j) || m.acknowledged j };
  dead_letter = λ m i n. m;
  acked = λ m i. m.acknowledged i;
}

key_eq_refl : (k : Key) → key_eq k k ≡ true
key_eq_refl (Key.latest a) = ground arith
key_eq_refl (Key.dedupe a) = ground arith
key_eq_refl (Key.retry a) = ground arith
key_eq_refl (Key.candle a t) = ground arith
key_eq_refl (Key.sequence a t) = ground arith
key_eq_refl (Key.health a t) = ground arith

memory-IsRedis : IsRedis memory
memory-IsRedis = record {
  get-set = λ s k v j. refl;
  set_nx_new = λ s k v h. rw h refl;
  set_nx_old = λ s k v u h. rw h refl;
  get-incr = λ s k j h. rw h refl;
  get-zadd = λ s a t j. refl;
  get-zremrangebyscore = λ s a t j. refl;
  get-publish = λ s e j. refl;
  get-xack = λ s i j. refl;
  get-dead_letter = λ s i n j. refl;
  incr_new = λ s k h. rw h refl;
  incr_number = λ s k n h. rw h refl;
  get-incr_same = λ s k. rw (key_eq_refl k) refl;
  acked-incr = λ s k i. refl;
  acked-xack = λ s i. ground arith;
}

abbrev fresh : Memory
fresh = record { strings = λ k. none; acknowledged = λ i. false }

-- A rival that writes the number of a sequence in the first two rounds.
abbrev rivals : ℕ → Memory → Memory × Bool
rivals n m = (written m (Key.sequence 1 1) (number n), leb n 1)

abbrev settings : Settings
settings = record {
  candle_history_retention_seconds = 60;
  candle_update_retry_limit = 3;
  retry_limit = 3;
}

cached_example :
    Cached memory rivals sample 120000000 0 fresh
      (attempts memory rivals 3 0 sample 120000000 0 fresh)
cached_example = attempts-Cached memory rivals sample 120000000 0 3 0 fresh (λ n s h. refl)

settle_example : (attempts memory rivals 3 0 sample 120000000 0 fresh).1 ≢ raised runtime_error
settle_example =
    attempts_settle memory rivals sample 120000000 0 3 0 2 fresh (omega arith) (omega arith)
      (λ t. refl)

once_more_example :
    process_one memory rivals settings 9
      (event sample)
      126000000
      (process_one memory rivals settings 8 (event sample) 126000000 fresh)
    ≡ memory.xack (process_one memory rivals settings 8 (event sample) 126000000 fresh) 9
unfolding validate_market check_schema check_volume check_flow check_trade_count check_depth
once_more_example =
    process_one_again memory memory-IsRedis rivals (λ n d s h. h) settings sample 8 9 126000000
      126000000 fresh refl

poison_example : memory.acked (deliveries memory rivals settings 2 8 missing 0 fresh) 8 ≡ leb 3 2
unfolding decode
poison_example =
    deliveries-acked memory memory-IsRedis rivals settings 8 0 2 missing key_error fresh refl refl
      refl (omega arith)

abbrev third : Memory
third = written fresh (Key.sequence 1 3) (number 3)

sequence_example :
    (memory.get (observe_all memory third (sample ∷ sample ∷ [])).0 (sequence 1 3)
      ≡ some (number (largest 3 (numbers (sample ∷ sample ∷ [])))))
    × (largest 3 (numbers (sample ∷ sample ∷ []))
          + disorders (observe_all memory third (sample ∷ sample ∷ [])).1
        ≡ 3
          + length (numbers (sample ∷ sample ∷ []))
          + skipped (observe_all memory third (sample ∷ sample ∷ [])).1)
sequence_example =
    observe_all_lem memory memory-IsRedis third (sample ∷ sample ∷ []) 1 3 3
      ((refl, refl), ((refl, refl), tt)) refl

-- Of the numbers 5 and 5 after 3, one is missing and one event is out of order.
sequence_reports :
    (skipped (observe_all memory third (sample ∷ sample ∷ [])).1 ≡ 1)
    × (disorders (observe_all memory third (sample ∷ sample ∷ [])).1 ≡ 1)
unfolding observe_all observe_sequence
sequence_reports = (refl, refl)
