-- ===== src/Candles/Aggregate/Tests.antt =====
-- Candles of a few quotes.
use smart_market_data_gatewa.Prelude.{
  ◌≤◌, ◌≡◌, refl, List, [], ◌∷◌, arith, true, length, All, Ascending, contains, sorted_numbers,
  insert_number,
}
use smart_market_data_gatewa.Prelude.Dict.{get, put}
use smart_market_data_gatewa.Prelude.Outcome.{ok}
use smart_market_data_gatewa.Domain.Evidence.{Datetime}
use smart_market_data_gatewa.Candles.Time.{m5, floor_instant, floor_time, history_window}
use smart_market_data_gatewa.Candles.Base.{BaseMinuteCandle}
use smart_market_data_gatewa.Candles.Aggregate.{
  CandleSeries, quotes_only, empty_omitted, closed_only, all_candles, grouping, group,
  sorted_by_time, insert_by_time, summaries, summarise, summary, bucket_of, outside,
  aggregate_base_candles,
}
use smart_market_data_gatewa.Candles.Aggregate.Groups.{of_bucket}
use smart_market_data_gatewa.Candles.Aggregate.Series.{open_times}
use smart_market_data_gatewa.Candles.Aggregate.Exact.{IsExact, aggregate_base_candles-IsExact}
use smart_market_data_gatewa.Candles.Aggregate.Complete.{aggregate_base_candles_complete}

-- Two minutes of one interval of five.
abbrev minute_one : BaseMinuteCandle
minute_one = record {
  symbol = 3;
  open_time = 600000000;
  open_price = 100;
  high = 104;
  low = 98;
  close_price = 101;
  activity_count = 5;
  first_provider_timestamp = 601000000;
  last_provider_timestamp = 655000000;
  first_event_id = 1;
  last_event_id = 5;
}

abbrev minute_two : BaseMinuteCandle
minute_two = record {
  symbol = 3;
  open_time = 660000000;
  open_price = 101;
  high = 107;
  low = 100;
  close_price = 106;
  activity_count = 2;
  first_provider_timestamp = 662000000;
  last_provider_timestamp = 670000000;
  first_event_id = 6;
  last_event_id = 7;
}

abbrev at_950 : Datetime
at_950 = record { micros = 950000000; aware = true }

abbrev base : List BaseMinuteCandle
base = minute_two ∷ minute_one ∷ []

series_example :
    (s : CandleSeries) × (aggregate_base_candles 3 m5 2 at_950 1440 base ≡ ok s)
    × All (IsExact 3 m5 s.period_start s.period_end base) s.candles
    × Ascending (open_times s.candles)
    × (length s.candles ≤ 2)
    × (s.returned_count ≡ length s.candles)
series_example =
    aggregate_base_candles-IsExact 3 m5 2 at_950 1440 base (omega arith) (omega arith) (omega arith)
      refl

abbrev five_minutes : CandleSeries
five_minutes = record {
  symbol = 3;
  timeframe = m5;
  requested_limit = 2;
  returned_count = 1;
  retention_seconds = 1440;
  period_start = 300000000;
  period_end = 950000000;
  candles =
      record {
        symbol = 3;
        timeframe = m5;
        open_time = 600000000;
        close_time = 900000000;
        open_price = 100;
        high = 107;
        low = 98;
        close_price = 106;
        activity_count = 7;
        first_observation = 601000000;
        last_observation = 670000000;
        closed = true;
      }
      ∷ [];
  warnings = quotes_only ∷ empty_omitted ∷ closed_only ∷ [];
}

complete_example : contains (open_times five_minutes.candles) 600000000 ≡ true
unfolding aggregate_base_candles history_window floor_time floor_instant all_candles grouping group
    sorted_by_time insert_by_time summaries summarise summary bucket_of outside of_bucket
    sorted_numbers insert_number get put
complete_example =
    aggregate_base_candles_complete 3 m5 2 at_950 1440 base five_minutes 600000000 minute_one
      (minute_two ∷ []) (omega arith) (omega arith) (omega arith) refl refl (refl, refl) refl
      (omega arith, (omega arith, tt))
