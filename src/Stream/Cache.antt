-- ===== src/Stream/Cache.antt =====
-- storage.py: `RedisStore.cache_quote`, whose loop watches the candle of the quote's minute. What
-- other clients do between the `GET` and the `EXEC` of a round, and whether they write the watched
-- candle, is a parameter.
pub mod Atomic
use smart_market_data_gatewa.Prelude.{
  ℕ, zero, suc, ◌+◌, ◌-◌, Bool, true, false, leb, if◌then◌else◌, Option, none, some,
}
use smart_market_data_gatewa.Prelude.Outcome.{Outcome, ok, raised, value_error, runtime_error}
use smart_market_data_gatewa.Domain.Quote.{QuoteEvent}
use smart_market_data_gatewa.Candles.Time.{floor_time, seconds}
use smart_market_data_gatewa.Candles.Base.{BaseMinuteCandle, from_quote, with_quote}
use smart_market_data_gatewa.Stream.Redis.{
  Redis, Value, quote, minute, number, degraded, mark, latest, candle,
}

pub record Settings : Type 0 where
  pub candle_history_retention_seconds : ℕ
  pub candle_update_retry_limit : ℕ
  pub retry_limit : ℕ

-- The candle of a round: a stored value of another form is refused by its validation.
unfoldable pub read_candle : Option Value → QuoteEvent → Outcome BaseMinuteCandle
read_candle none event = from_quote event
read_candle (some (minute c)) event = with_quote c event
read_candle (some (quote e)) event = raised value_error
read_candle (some (number n)) event = raised value_error
read_candle (some (degraded g)) event = raised value_error
read_candle (some mark) event = raised value_error

module _ {S : Type 0} (r : Redis S) where
  -- The queued commands, in one transaction.
  unfoldable pub commit : QuoteEvent → ℕ → ℕ → BaseMinuteCandle → S → S
  commit event bucket expired c s =
      let s1 = r.set s (latest event.symbol) (quote event) in
      let s2 = r.set s1 (candle event.symbol bucket) (minute c) in
      let s3 = r.zadd s2 event.symbol bucket in r.zremrangebyscore s3 event.symbol expired

module _ {S : Type 0} (r : Redis S) (rivals : ℕ → S → S × Bool) where
  -- How a round ends: with its candle refused, with a rival's write, or with the transaction.
  abbrev pub resolved :
      QuoteEvent
      → ℕ
      → ℕ
      → S
      → S × Bool
      → S × Outcome (Unit {0})
      → Outcome BaseMinuteCandle
      → S × Outcome (Unit {0})
  resolved event bucket expired s after rest (raised e) = (s, raised e)
  resolved event bucket expired s after rest (ok c) =
      if after.1 then rest else (commit r event bucket expired c after.0, ok tt)

  -- The rounds: one that a rival disturbed is tried again.
  unfoldable pub attempts : ℕ → ℕ → QuoteEvent → ℕ → ℕ → S → S × Outcome (Unit {0})
  attempts zero round event bucket expired s = (s, raised runtime_error)
  attempts (suc left) round event bucket expired s =
      let after = rivals round s in
      let rest = attempts left (suc round) event bucket expired after.0 in
      resolved event bucket expired s after rest
        (read_candle (r.get s (candle event.symbol bucket)) event)

module _ {S : Type 0} (r : Redis S) (rivals : ℕ → S → S × Bool) (settings : Settings) where
  abbrev pub cache_bucket : QuoteEvent → ℕ → S → Outcome ℕ → S × Outcome (Unit {0})
  cache_bucket event now s (raised e) = (s, raised e)
  cache_bucket event now s (ok bucket) =
      if leb (bucket + seconds 60 + seconds settings.candle_history_retention_seconds) now
      then (r.set s (latest event.symbol) (quote event), ok tt)
      else attempts r rivals settings.candle_update_retry_limit 0 event bucket
          (now - seconds (settings.candle_history_retention_seconds + 60)) s

  unfoldable pub cache_quote : QuoteEvent → ℕ → S → S × Outcome (Unit {0})
  cache_quote event now s = cache_bucket event now s (floor_time event.provider_timestamp 60)
