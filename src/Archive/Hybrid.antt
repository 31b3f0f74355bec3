-- ===== src/Archive/Hybrid.antt =====
-- candle_archive.py: `HybridCandleHistoryStore.get_candles`, given what its two tasks came to, with
-- `_capture_series`, `_ceil_timeframe` and `_unique_warnings`.
pub mod Overlay
pub mod Order
use mathlib.Core.List.{foldl}
use smart_market_data_gatewa.Prelude.{
  ℕ, ◌+◌, ◌-◌, Bool, true, false, ◌||◌, ◌&&◌, not, ltb, leb, if◌then◌else◌, is_some, Option, none,
  some, List, [], ◌∷◌, ◌++◌, length, sorted_numbers,
}
use smart_market_data_gatewa.Prelude.Dict.{Dict, get, put, keys}
use smart_market_data_gatewa.Prelude.Outcome.{
  Outcome, Error, ok, raised, value_error, key_error, runtime_error, os_error, arithmetic_error,
  cancelled, refuse_if, ◌>>=◌, ◌>>◌,
}
use smart_market_data_gatewa.Domain.Evidence.{Datetime}
use smart_market_data_gatewa.Candles.Time.{Timeframe, timeframe_seconds, seconds, floor_time}
use smart_market_data_gatewa.Candles.Aggregate.{
  Candle, CandleSeries, Warning, quotes_only, empty_omitted, closed_only, hot_only, archive_only,
  overlaid, latest,
}

-- `_capture_series`: a cancellation is no `Exception` and goes on.
abbrev pub capture_series : Outcome CandleSeries → Outcome (Option CandleSeries × Option Error)
capture_series (ok s) = ok (some s, none)
capture_series (raised value_error) = ok (none, some value_error)
capture_series (raised key_error) = ok (none, some key_error)
capture_series (raised runtime_error) = ok (none, some runtime_error)
capture_series (raised os_error) = ok (none, some os_error)
capture_series (raised arithmetic_error) = ok (none, some arithmetic_error)
capture_series (raised cancelled) = raised cancelled

unfoldable pub ceil_timeframe : Datetime → Timeframe → Outcome ℕ
ceil_timeframe value timeframe = do
  bucket ← floor_time value (timeframe_seconds timeframe)
  ok (if ltb bucket value.micros then bucket + seconds (timeframe_seconds timeframe) else bucket)

abbrev same_warning : Warning → Warning → Bool
same_warning quotes_only quotes_only = true
same_warning empty_omitted empty_omitted = true
same_warning closed_only closed_only = true
same_warning hot_only hot_only = true
same_warning archive_only archive_only = true
same_warning overlaid overlaid = true
same_warning v w = false

warned : List Warning → Warning → Bool
warned [] w = false
warned (v ∷ vs) w = same_warning v w || warned vs w

-- `_unique_warnings`, on the warnings so far and the warnings to come.
pub unique_warnings : List Warning → List Warning → List Warning
unique_warnings seen [] = seen
unique_warnings seen (w ∷ ws) = unique_warnings (if warned seen w then seen else seen ++ w ∷ []) ws

-- `{candle.open_time: candle for candle in ...}`
keep : Dict Candle → Candle → Dict Candle
keep d c = put d c.open_time c

pub by_time : Dict Candle → List Candle → Dict Candle
by_time = foldl keep

-- One round of the loop over the hot candles.
overlay_one : ℕ → Dict Candle → Candle → Dict Candle
overlay_one start merged c =
    if leb start c.open_time || not (is_some (get merged c.open_time))
    then put merged c.open_time c
    else merged

pub overlay : ℕ → Dict Candle → List Candle → Dict Candle
overlay start = foldl (overlay_one start)

abbrev pub listed : Option Candle → List Candle
listed none = []
listed (some c) = c ∷ []

pub in_order : Dict Candle → List ℕ → List Candle
in_order merged [] = []
in_order merged (t ∷ ts) = listed (get merged t) ++ in_order merged ts

pub record Config : Type 0 where
  pub candle_history_retention_seconds : ℕ
  pub candle_archive_retention_seconds : ℕ

abbrev pub merged_candles : ℕ → CandleSeries → CandleSeries → Dict Candle
merged_candles start hot archive = overlay start (by_time [] archive.candles) hot.candles

abbrev pub combined_series : Config → Timeframe → ℕ → CandleSeries → CandleSeries → ℕ → CandleSeries
combined_series config timeframe limit hot archive start =
    let merged = merged_candles start hot archive in
    let candles = latest limit (in_order merged (sorted_numbers (keys merged))) in
    record {
      symbol = archive.symbol;
      timeframe = timeframe;
      requested_limit = limit;
      returned_count = length candles;
      retention_seconds = config.candle_archive_retention_seconds;
      period_start = archive.period_start;
      period_end = archive.period_end;
      candles = candles;
      warnings = unique_warnings [] (archive.warnings ++ hot.warnings ++ overlaid ∷ []);
    }

-- Both layers answered: the recent buckets of the hot one are laid over the archive's. The bounds
-- are those of the fields of `CandleSeries`.
unfoldable pub combined :
    Config → Timeframe → ℕ → Datetime → CandleSeries → CandleSeries → Outcome CandleSeries
combined config timeframe limit now hot archive = do
  start ←
      ceil_timeframe
        (record now { micros = now.micros - seconds config.candle_history_retention_seconds })
        timeframe
  refuse_if (ltb limit 1 || ltb 1000 limit || ltb config.candle_archive_retention_seconds 1)
      value_error
  ok (combined_series config timeframe limit hot archive start)

abbrev first_error : Option Error → Option Error → Error
first_error (some e) f = e
first_error none (some f) = f
first_error none none = runtime_error

abbrev warn : CandleSeries → Warning → CandleSeries
warn s w = record s { warnings = unique_warnings [] (s.warnings ++ w ∷ []) }

abbrev pub chosen :
    Config
    → Timeframe
    → ℕ
    → Datetime
    → Option CandleSeries × Option Error
    → Option CandleSeries × Option Error
    → Outcome CandleSeries
chosen config timeframe limit now (none, e) (none, f) = raised (first_error e f)
chosen config timeframe limit now (some hot, e) (none, f) = ok (warn hot hot_only)
chosen config timeframe limit now (none, e) (some archive, f) = ok (warn archive archive_only)
chosen config timeframe limit now (some hot, e) (some archive, f) =
    combined config timeframe limit now hot archive

-- `get_candles`, with an archive or without.
unfoldable pub get_candles :
    Config
    → Timeframe
    → ℕ
    → Datetime
    → Outcome CandleSeries
    → Option (Outcome CandleSeries)
    → Outcome CandleSeries
get_candles config timeframe limit now hot none = hot
get_candles config timeframe limit now hot (some archive) = do
  h ← capture_series hot
  a ← capture_series archive
  chosen config timeframe limit now h a
