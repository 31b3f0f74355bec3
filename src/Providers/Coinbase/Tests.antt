-- ===== src/Providers/Coinbase/Tests.antt =====
-- A Python, two messages and a session, for tests.
use smart_market_data_gatewa.Prelude.{
  not, ◌||◌, ℕ, zero, suc, ◌+◌, ◌-◌, ◌*◌, ◌≤◌, ◌≡◌, refl, ap, true, false, ◌&&◌, ◌==◌,
  if◌then◌else◌, Option, none, some, List, [], ◌∷◌, length, arith,
}
use smart_market_data_gatewa.Prelude.Text.{Text, upper}
use smart_market_data_gatewa.Prelude.TextDict.{find, assign, sorted_items, insert_item}
use smart_market_data_gatewa.Prelude.Outcome.{ok}
use smart_market_data_gatewa.Domain.Evidence.{Datetime, require_timezone}
use smart_market_data_gatewa.Domain.Quote.{
  QuoteEvent, validate_market, check_schema, check_volume, check_flow, check_trade_count,
  check_depth,
}
use smart_market_data_gatewa.Providers.Coinbase.Json.{
  string, array, object, nothing, item, Fields, empty, field, get_or, Python, Number, nan, amount,
  strip, lstrip, rstrip,
}
use smart_market_data_gatewa.Providers.Coinbase.Names
use smart_market_data_gatewa.Providers.Coinbase.Values.{
  all_allowed, mapping_items, replace_z, symbol_of, timestamp, decimal, positive_decimal,
  non_negative_decimal,
}
use smart_market_data_gatewa.Providers.Coinbase.Trades.{Tally, add_side, add_trade, add_trades}
use smart_market_data_gatewa.Providers.Coinbase.Ticker.{ticker_state}
use smart_market_data_gatewa.Providers.Coinbase.Event.{quote_event, construct, joined}
use smart_market_data_gatewa.Providers.Coinbase.Projector.{
  Projector, next_sequence, build_quote_event, project_groups, project_trades, group_trades,
  group_events, apply, apply_ticker, apply_ticker_events, apply_tickers, clear_connection_state,
}
use smart_market_data_gatewa.Providers.Coinbase.Projector.Accepted.{
  IsPriced, orderly, two_sided, fits, bid_of, ask_of, bid_depth_of, ask_depth_of,
  build_quote_event-accepts,
}
use smart_market_data_gatewa.Providers.Coinbase.Projector.Accepted
use smart_market_data_gatewa.Providers.Coinbase.Projector.Content.{IsOf, build_quote_event-IsOf}
use smart_market_data_gatewa.Providers.Coinbase.Projector.Priced.{used-returned}
use smart_market_data_gatewa.Providers.Coinbase.Values.{finite}
use smart_market_data_gatewa.Providers.Coinbase.Projector.Accepted.{infinite_event}
use smart_market_data_gatewa.Providers.Coinbase.Projector.Rising.{
  Use, message, reconnect, used, AreBelow, apply-rising,
}
use smart_market_data_gatewa.Providers.Coinbase.State.{
  Session, reset, disconnected, degraded, failed, connected,
}
use smart_market_data_gatewa.Providers.Coinbase.Session.{Config, frame, garbled, read}
use smart_market_data_gatewa.Providers.Coinbase.Session.Sound.{IsSound}
use smart_market_data_gatewa.Providers.Coinbase.Session.Nan.{HasNan, read-HasNan}
use smart_market_data_gatewa.Providers.Coinbase.Runs.{Happening, happen_all, happen_all-IsSound}

-- Different numbers for different texts.
shift : ℕ → ℕ → ℕ
shift zero n = 2 * n + 1
shift (suc c) n = 2 * shift c n

unfoldable code_of : Text → ℕ
unfolding shift
code_of [] = 0
code_of (c ∷ t) = shift c (code_of t)

shift_inj : (c d m n : ℕ) → shift c m ≡ shift d n → (c ≡ d) × (m ≡ n)
unfolding shift
shift_inj zero zero m n e = (refl, omega (arith, e))
shift_inj zero (suc d) m n e = absurd (omega (arith, e))
shift_inj (suc c) zero m n e = absurd (omega (arith, e))
shift_inj (suc c) (suc d) m n e = let (p, q) = shift_inj c d m n (omega (arith, e)) in (ap suc p, q)

shift_positive : (c n : ℕ) → 1 ≤ shift c n
unfolding shift
shift_positive zero n = omega arith
shift_positive (suc c) n = omega (arith, shift_positive c n)

code_of_inj : (s t : Text) → code_of s ≡ code_of t → s ≡ t
unfolding code_of
code_of_inj [] [] e = refl
code_of_inj [] (d ∷ t) e = absurd (omega (arith, e, shift_positive d (code_of t)))
code_of_inj (c ∷ s) [] e = absurd (omega (arith, e, shift_positive c (code_of s)))
code_of_inj (c ∷ s) (d ∷ t) e =
    let (p, q) = shift_inj c d (code_of s) (code_of t) e in rw (p, code_of_inj s t q) refl

-- "NaN", and a digit.
abbrev number_of : Text → Option Number
number_of [] = none
number_of (c ∷ t) = if c == 78 then some nan else some (amount (c - 48))

abbrev python : Python
python = record {
  repr = λ v. [];
  decimal = number_of;
  fromisoformat = λ t. some (record { micros = length t; aware = true });
  uuid5 = length;
  code = code_of;
}

abbrev noon : Datetime
noon = record { micros = 12; aware = true }

-- "BTC-USD"
abbrev btc : Text
btc = 66 ∷ 84 ∷ 67 ∷ 45 ∷ 85 ∷ 83 ∷ 68 ∷ []

-- A sale of 2 at 5 by a maker.
abbrev trade : Fields
trade = field Names.product_id (string btc) (
    field Names.size (string (50 ∷ [])) (
      field Names.price (string (53 ∷ []))
        (field Names.side (string Names.sell) (field Names.trade_id (string (55 ∷ [])) empty))))

abbrev trades_message : Fields
trades_message = field Names.channel (string Names.market_trades) (
    field Names.timestamp_name (string (49 ∷ [])) (
      field Names.events
        (array
          (item (object (field Names.trades (array (item (object trade) nothing)) empty)) nothing))
        empty))

abbrev summed : Tally
summed = record {
  total_volume = finite 2;
  aggressive_buy_volume = finite 2;
  aggressive_sell_volume = finite 0;
  trade_ids = (55 ∷ []) ∷ [];
  latest_price = some (finite 5);
  latest_timestamp = noon;
}

abbrev no_book : Projector
no_book = record { ticker_by_symbol = []; sequence_by_symbol = (btc, 3) ∷ [] }

abbrev fourth : QuoteEvent
unfolding quote_event
fourth = quote_event python btc none summed (finite 5) 1 4 13

content_example :
    IsOf python btc (trade ∷ []) (next_sequence python no_book btc) fourth
    × (find (build_quote_event python btc (trade ∷ []) noon 13 no_book).0.sequence_by_symbol btc
        ≡ some (next_sequence python no_book btc))
unfolding apply project_trades project_groups group_events group_trades mapping_items
    build_quote_event add_trades add_trade add_side symbol_of all_allowed timestamp replace_z
    non_negative_decimal positive_decimal decimal get_or strip lstrip rstrip upper find assign
    sorted_items insert_item quote_event joined construct require_timezone validate_market
    check_schema check_volume check_flow check_trade_count check_depth
content_example = build_quote_event-IsOf python btc (trade ∷ []) noon 13 no_book fourth refl

abbrev nan_message : Fields
nan_message = field Names.channel (string Names.ticker) (
    field Names.timestamp_name (string (49 ∷ [])) (
      field Names.events
        (array (
          item
            (object (
              field Names.tickers
                (array (
                  item
                    (object (
                      field Names.product_id (string btc)
                        (field Names.price (string (78 ∷ 97 ∷ 78 ∷ [])) empty)))
                    nothing))
                empty))
            nothing))
        empty))

abbrev start : Projector
start = record { ticker_by_symbol = []; sequence_by_symbol = [] }

-- A ticker at 4 and 6 with a depth on one side.
abbrev ticker_message : Fields
ticker_message = field Names.channel (string Names.ticker) (
    field Names.timestamp_name (string (49 ∷ [])) (
      field Names.events
        (array (
          item
            (object (
              field Names.tickers
                (array (
                  item
                    (object (
                      field Names.product_id (string btc) (
                        field Names.price (string (53 ∷ [])) (
                          field Names.best_bid (string (52 ∷ [])) (
                            field Names.best_ask (string (54 ∷ []))
                              (field Names.best_bid_quantity (string (49 ∷ [])) empty))))))
                    nothing))
                empty))
            nothing))
        empty))

abbrev quoted : Projector
quoted = used python (message ticker_message 14 ∷ reconnect ∷ message ticker_message 15 ∷ []) start

returned_example :
    (find (build_quote_event python btc (trade ∷ []) noon 13 quoted).0.sequence_by_symbol btc
      ≡ some (next_sequence python quoted btc))
    × ((not (Accepted.returned (build_quote_event python btc (trade ∷ []) noon 13 quoted).1)
          || (not (infinite_event (find quoted.ticker_by_symbol btc) summed)
              && (fits btc
                  && orderly
                      (bid_of (find quoted.ticker_by_symbol btc))
                      (ask_of (find quoted.ticker_by_symbol btc))
                  && two_sided
                      (bid_depth_of (find quoted.ticker_by_symbol btc))
                      (ask_depth_of (find quoted.ticker_by_symbol btc)))))
        ≡ true)
unfolding add_trades add_trade add_side non_negative_decimal positive_decimal decimal get_or strip
    lstrip rstrip upper
returned_example =
    used-returned python (message ticker_message 14 ∷ reconnect ∷ message ticker_message 15 ∷ [])
      start btc trade [] noon 13 summed refl refl refl

abbrev at_one : Tally
at_one = record summed { latest_timestamp = record { micros = 1; aware = true } }

abbrev event_numbered : ℕ → QuoteEvent
unfolding quote_event
event_numbered n = quote_event python btc none at_one (finite 5) 1 n 13

abbrev between : List Use
between = message nan_message 14 ∷ reconnect ∷ []

rising_example : AreBelow python (event_numbered 1 ∷ []) (event_numbered 2 ∷ [])
unfolding apply project_trades project_groups group_events group_trades mapping_items
    build_quote_event add_trades add_trade add_side symbol_of all_allowed timestamp replace_z
    non_negative_decimal positive_decimal decimal get_or strip lstrip rstrip upper find assign
    sorted_items insert_item quote_event joined construct require_timezone validate_market
    check_schema check_volume check_flow check_trade_count check_depth used clear_connection_state
    apply_ticker apply_ticker_events apply_tickers ticker_state
rising_example =
    apply-rising python code_of_inj start trades_message trades_message 13 13 between
      (event_numbered 1 ∷ []) (event_numbered 2 ∷ []) refl refl

abbrev session : Session
session = record {
  state = disconnected;
  message = none;
  symbols = [];
  queue = [];
  projector = start;
  connection = false;
  reading = false;
  heartbeats_subscribed = false;
  acknowledged_channels = [];
  all_acknowledged = false;
  diagnostics = reset;
  requests = [];
}

session-IsSound : IsSound 0 session
session-IsSound = record {
  acknowledged = λ e. absurd cc;
  connected = λ e. absurd cc;
  counted = refl;
  accounted = omega arith;
}

abbrev config : Config
config = record {
  url = 119 ∷ 115 ∷ 58 ∷ 47 ∷ 47 ∷ [];
  use_mode = Names.personal_research;
  market_data_terms_accepted = true;
  environment = [];
  queue_size = 10;
  message_idle_timeout = 15;
}

abbrev day : List Happening
day =
    Happening.connects (ok tt)
    ∷ Happening.subscribes (λ n. ok tt) (btc ∷ [])
    ∷ Happening.reads garbled 20
    ∷ Happening.reads (frame (object trades_message)) 21
    ∷ Happening.reads (frame (object nan_message)) 22
    ∷ Happening.disconnects
    ∷ []

day_example : IsSound 0 (happen_all python config day session)
day_example = happen_all-IsSound python config day session session-IsSound

abbrev running : Session
running = record session { connection = true; reading = true; state = connected }

nan_message-HasNan : HasNan python nan_message
unfolding timestamp replace_z get_or symbol_of all_allowed decimal mapping_items strip lstrip rstrip
    upper
nan_message-HasNan = record {
  channel = refl;
  at = record { micros = 1; aware = true };
  stamped = refl;
  event =
      field Names.tickers
        (array (
          item
            (object (
              field Names.product_id (string btc)
                (field Names.price (string (78 ∷ 97 ∷ 78 ∷ [])) empty)))
            nothing))
        empty;
  events = [];
  listed = refl;
  ticker =
      field Names.product_id (string btc) (field Names.price (string (78 ∷ 97 ∷ 78 ∷ [])) empty);
  tickers = [];
  quoted = refl;
  symbol = btc;
  named = refl;
  price = refl;
}

nan_example :
    ((read python (frame (object nan_message)) 22 running).reading ≡ false)
    × ((read python (frame (object nan_message)) 22 running).state ≡ degraded)
    × ((read python (frame (object nan_message)) 22 running).diagnostics.reader_final_state
        ≡ failed)
    × ((read python (frame (object nan_message)) 22 running).queue ≡ running.queue)
nan_example = read-HasNan python nan_message 22 running nan_message-HasNan refl
