-- ===== src/Providers/Coinbase/Projector.antt =====
-- providers/coinbase.py: `CoinbaseMessageProjector`.
pub mod Accepted
pub mod Content
pub mod Numbers
pub mod Rising
pub mod Priced
use smart_market_data_gatewa.Prelude.{
  ℕ, ◌+◌, if◌then◌else◌, Option, none, some, List, [], ◌∷◌, ◌++◌, length,
}
use smart_market_data_gatewa.Prelude.Text.{Text, text_eq}
use smart_market_data_gatewa.Prelude.TextDict.{TextDict, or_default, find, assign, sorted_items}
use smart_market_data_gatewa.Prelude.Outcome.{
  Outcome, ok, raised, value_error, refuse_if, ◌>>=◌, ◌>>◌,
}
use smart_market_data_gatewa.Domain.Evidence.{Datetime}
use smart_market_data_gatewa.Domain.Quote.{QuoteEvent}
use smart_market_data_gatewa.Providers.Coinbase.Json.{string, Fields, get, get_or, Python, str}
use smart_market_data_gatewa.Providers.Coinbase.Values.{
  Amount, mapping_sequence, symbol_of, timestamp,
}
use smart_market_data_gatewa.Providers.Coinbase.Names
use smart_market_data_gatewa.Providers.Coinbase.Ticker.{TickerState, named_ticker}
use smart_market_data_gatewa.Providers.Coinbase.Trades.{Tally, no_trades, add_trades}
use smart_market_data_gatewa.Providers.Coinbase.Event.{quote_event, construct, has_infinity}

pub record Projector : Type 0 where
  pub ticker_by_symbol : TextDict TickerState
  pub sequence_by_symbol : TextDict ℕ

unfoldable pub clear_connection_state : Projector → Projector
clear_connection_state p = record p { ticker_by_symbol = [] }

-- A state, and the outcome of what came before: an exception keeps the state.
module _ {S A B : Type 0} where
  abbrev pub given : S → Outcome A → (A → S × Outcome B) → S × Outcome B
  given s (ok a) k = k a
  given s (raised e) k = (s, raised e)

  abbrev pub after : S × Outcome A → (S → A → S × Outcome B) → S × Outcome B
  after (s, ok a) k = k s a
  after (s, raised e) k = (s, raised e)

module _ (py : Python) where
  abbrev pub put_ticker : Projector → Text → TickerState → Projector
  put_ticker p symbol t = record p { ticker_by_symbol = assign p.ticker_by_symbol symbol t }

  -- The tickers up to the first that cannot be read.
  unfoldable pub apply_tickers : Datetime → List Fields → Projector → Projector × Outcome (Unit {0})
  apply_tickers at [] p = (p, ok tt)
  apply_tickers at (ticker ∷ tickers) p =
      given p (named_ticker py at ticker) λ t. apply_tickers at tickers (put_ticker p t.0 t.1)

  unfoldable pub apply_ticker_events :
      Datetime → List Fields → Projector → Projector × Outcome (Unit {0})
  apply_ticker_events at [] p = (p, ok tt)
  apply_ticker_events at (event ∷ events) p =
      after
        (given p (mapping_sequence (get event Names.tickers)) λ tickers. apply_tickers at tickers p)
        λ next u. apply_ticker_events at events next

  unfoldable pub apply_ticker : Fields → Projector → Projector × Outcome (Unit {0})
  apply_ticker payload p = given p (timestamp py (get payload Names.timestamp_name)) λ at.
      given p (mapping_sequence (get payload Names.events))
        λ events. apply_ticker_events at events p

  -- The trades of each symbol, in order.
  abbrev pub grouped : TextDict (List Fields) → Text → Fields → TextDict (List Fields)
  grouped groups symbol trade =
      assign groups symbol (or_default (find groups symbol) [] ++ trade ∷ [])

  unfoldable pub group_trades :
      List Fields → TextDict (List Fields) → Outcome (TextDict (List Fields))
  group_trades [] groups = ok groups
  group_trades (trade ∷ trades) groups = do
    symbol ← symbol_of py (get trade Names.product_id)
    group_trades trades (grouped groups symbol trade)

  unfoldable pub group_events :
      List Fields → TextDict (List Fields) → Outcome (TextDict (List Fields))
  group_events [] groups = ok groups
  group_events (event ∷ events) groups = do
    trades ← mapping_sequence (get event Names.trades)
    next ← group_trades trades groups
    group_events events next

  abbrev pub next_sequence : Projector → Text → ℕ
  next_sequence p symbol = or_default (find p.sequence_by_symbol symbol) 0 + 1

  abbrev pub priced :
      Text → ℕ → ℕ → Projector → Tally → Option Amount → Projector × Outcome QuoteEvent
  priced symbol count received_at p t none = (p, raised value_error)
  priced symbol count received_at p t (some price) = (
    record p { sequence_by_symbol = assign p.sequence_by_symbol symbol (next_sequence p symbol) },
    refuse_if (has_infinity (find p.ticker_by_symbol symbol) t price) value_error
        >> construct symbol (
            quote_event py symbol (find p.ticker_by_symbol symbol) t price count
              (next_sequence p symbol) received_at),
  )

  unfoldable pub build_quote_event :
      Text → List Fields → Datetime → ℕ → Projector → Projector × Outcome QuoteEvent
  build_quote_event symbol trades message_timestamp received_at p =
      given p (add_trades py trades (no_trades message_timestamp))
        λ t. priced symbol (length trades) received_at p t t.latest_price

  unfoldable pub project_groups :
      Datetime
      → ℕ
      → TextDict (List Fields)
      → List QuoteEvent
      → Projector
      → Projector × Outcome (List QuoteEvent)
  project_groups at received_at [] done p = (p, ok done)
  project_groups at received_at ((symbol, []) ∷ groups) done p =
      project_groups at received_at groups done p
  project_groups at received_at ((symbol, trade ∷ trades) ∷ groups) done p =
      after (build_quote_event symbol (trade ∷ trades) at received_at p)
        λ next event. project_groups at received_at groups (done ++ event ∷ []) next

  unfoldable pub project_trades : Fields → ℕ → Projector → Projector × Outcome (List QuoteEvent)
  project_trades payload received_at p =
      given p (timestamp py (get payload Names.timestamp_name)) λ at.
        given p (mapping_sequence (get payload Names.events)) λ events.
          given p (group_events events [])
            λ groups. project_groups at received_at (sorted_items groups) [] p

  abbrev pub no_events : Projector × Outcome (Unit {0}) → Projector × Outcome (List QuoteEvent)
  no_events (p, ok u) = (p, ok [])
  no_events (p, raised e) = (p, raised e)

  -- The text of `payload.get("channel", "")`.
  abbrev pub channel_of : Fields → Text
  channel_of payload = str py (get_or payload Names.channel (string []))

  unfoldable pub apply : Fields → ℕ → Projector → Projector × Outcome (List QuoteEvent)
  apply payload received_at p =
      if text_eq (channel_of payload) Names.ticker
      then no_events (apply_ticker payload p)
      else if text_eq (channel_of payload) Names.market_trades
      then project_trades payload received_at p
      else (p, ok [])
