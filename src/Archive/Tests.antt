-- ===== src/Archive/Tests.antt =====
-- A stream of three deliveries, one of them repeated, into an empty archive.
use smart_market_data_gatewa.Archive.Hybrid.Order.{combined-Ascending}
use smart_market_data_gatewa.Prelude.{
  ◌+◌, ◌≤◌, length, Ascending, contains, arith, ℕ, ◌≡◌, List, [], ◌∷◌, refl, true,
}
use smart_market_data_gatewa.Prelude.Dict.{get}
use smart_market_data_gatewa.Domain.Evidence.{Datetime}
use smart_market_data_gatewa.Candles.Time.{m1}
use smart_market_data_gatewa.Candles.Aggregate.{Candle, CandleSeries}
use smart_market_data_gatewa.Candles.Aggregate.Series.{open_times}
use smart_market_data_gatewa.Archive.Hybrid.{Config, merged_candles, combined}
use smart_market_data_gatewa.Archive.Hybrid.Overlay.{at, preferred, get-merged_candles}
use smart_market_data_gatewa.Prelude.Outcome.{ok}
use smart_market_data_gatewa.Domain.Quote.{QuoteEvent, sample}
use smart_market_data_gatewa.Candles.Arrival.{absorb_all}
use smart_market_data_gatewa.Archive.Table.{Archive, empty}
use smart_market_data_gatewa.Archive.Replay.{
  persist_all, accepted, of_minute, IsKeyed, persist_all-rows,
}

abbrev later : QuoteEvent
later = record sample {
  event_id = 8;
  price = 103;
  provider_timestamp = record { micros = 130000000; aware = true };
}

abbrev stream : List QuoteEvent
stream = sample ∷ later ∷ sample ∷ []

empty-IsKeyed : IsKeyed empty
empty-IsKeyed = record { row = λ s b c h. absurd cc }

rows_example :
    (a' : Archive) × (persist_all empty stream ≡ ok a')
    × ((s b : ℕ)
        → absorb_all (ok (empty.rows s b)) (of_minute s b (accepted empty.events stream))
          ≡ ok (a'.rows s b))
rows_example = persist_all-rows empty stream empty-IsKeyed (refl, (refl, (refl, tt)))

-- Two layers that differ at one time.
abbrev candle_at : ℕ → ℕ → Candle
candle_at t price = record {
  symbol = 3;
  timeframe = m1;
  open_time = t;
  close_time = t + 60000000;
  open_price = price;
  high = price;
  low = price;
  close_price = price;
  activity_count = 1;
  first_observation = t;
  last_observation = t;
  closed = true;
}

abbrev series_of : List Candle → CandleSeries
series_of ks = record {
  symbol = 3;
  timeframe = m1;
  requested_limit = 2;
  returned_count = 2;
  retention_seconds = 600;
  period_start = 0;
  period_end = 240000000;
  candles = ks;
  warnings = [];
}

abbrev hot : CandleSeries
hot = series_of (candle_at 60000000 7 ∷ candle_at 120000000 8 ∷ [])

abbrev cold : CandleSeries
cold = series_of (candle_at 0 4 ∷ candle_at 60000000 5 ∷ [])

abbrev config : Config
config = record { candle_history_retention_seconds = 90; candle_archive_retention_seconds = 600 }

abbrev at_210 : Datetime
at_210 = record { micros = 210000000; aware = true }

merged_example :
    get (merged_candles 120000000 hot cold) 60000000
    ≡ preferred 120000000 60000000 (at hot.candles 60000000) (at cold.candles 60000000)
unfolding contains
merged_example =
    get-merged_candles 120000000 hot cold 60000000 (refl, (refl, tt)) (refl, (refl, tt))

combined_example :
    (s : CandleSeries) × (combined config m1 2 at_210 hot cold ≡ ok s)
    × Ascending (open_times s.candles)
    × (length s.candles ≤ 2)
    × (s.returned_count ≡ length s.candles)
combined_example =
    combined-Ascending config m1 2 at_210 hot cold (omega arith) (omega arith) (omega arith) refl
