-- ===== src/Providers/Coinbase/Session/Nan.antt =====
-- What a NaN in a message does to the reader.
use smart_market_data_gatewa.Prelude.{
  ℕ, ◌≡◌, ◌∙◌, refl, ap, true, false, if◌then◌else◌, List, [], ◌∷◌,
}
use smart_market_data_gatewa.Prelude.Text.{Text}
use smart_market_data_gatewa.Prelude.Outcome.{ok, raised, arithmetic_error}
use smart_market_data_gatewa.Domain.Evidence.{Datetime}
use smart_market_data_gatewa.Providers.Coinbase.Json.{
  string, object, Fields, get, get_or, Python, str, strip, lstrip, rstrip, nan,
}
use smart_market_data_gatewa.Providers.Coinbase.Values.{
  mapping_sequence, timestamp, symbol_of, decimal, positive_decimal,
}
use smart_market_data_gatewa.Providers.Coinbase.Names
use smart_market_data_gatewa.Providers.Coinbase.Ticker.{ticker_state, named_ticker}
use smart_market_data_gatewa.Providers.Coinbase.Projector.{
  Projector, given, after, apply, apply_ticker, apply_ticker_events, apply_tickers,
}
use smart_market_data_gatewa.Providers.Coinbase.State.{Session, degraded, failed, finalize_reader}
use smart_market_data_gatewa.Providers.Coinbase.Session.{
  frame, read, read_frame, read_payload, project, acknowledge, received, settled, reader_ends,
  or_unknown, deliver,
}

module _ (py : Python) where
  -- A message of the ticker channel whose first ticker has a symbol and a NaN for its price.
  pub record HasNan (payload : Fields) : Type 0 where
    pub channel : get_or payload Names.channel (string []) ≡ string Names.ticker
    pub at : Datetime
    pub stamped : timestamp py (get payload Names.timestamp_name) ≡ ok at
    pub event : Fields
    pub events : List Fields
    pub listed : mapping_sequence (get payload Names.events) ≡ ok (event ∷ events)
    pub ticker : Fields
    pub tickers : List Fields
    pub quoted : mapping_sequence (get event Names.tickers) ≡ ok (ticker ∷ tickers)
    pub symbol : Text
    pub named : symbol_of py (get ticker Names.product_id) ≡ ok symbol
    pub price : decimal py (get ticker Names.price) ≡ ok nan

  ticker_nan :
      (at : Datetime) (ticker : Fields) (symbol : Text)
      → symbol_of py (get ticker Names.product_id) ≡ ok symbol
      → decimal py (get ticker Names.price) ≡ ok nan
      → named_ticker py at ticker ≡ raised arithmetic_error
  unfolding ticker_state positive_decimal
  ticker_nan at ticker symbol n e = rw (n, e) refl

  apply_nan :
      (payload : Fields) (received_at : ℕ) (p : Projector)
      → HasNan payload
      → apply py payload received_at p ≡ (p, raised arithmetic_error)
  unfolding apply apply_ticker apply_ticker_events apply_tickers
  apply_nan payload received_at p h =
      rw
        (
          h.channel,
          h.stamped,
          h.listed,
          h.quoted,
          ticker_nan h.at h.ticker h.symbol h.named h.price,
        )
        refl

  read_ends :
      (payload : Fields) (at : ℕ) (s : Session)
      → HasNan payload
      → s.reading ≡ true
      → read py (frame (object payload)) at s
        ≡ reader_ends arithmetic_error (received Names.ticker s)
  unfolding read read_frame read_payload project finalize_reader lstrip rstrip strip
  read_ends payload at s h r =
      ap (λ b. if b then read_payload py payload at s else s) r
      ∙ ap
          (λ j. settled (
            after
              (acknowledge py (or_unknown (strip (str py j))) payload
                (received (or_unknown (strip (str py j))) s))
              λ t u. project py payload at t))
          h.channel
      ∙ ap
          (λ q. settled (
            given (record (received Names.ticker s) { projector = q.0 }) q.1
              λ es. (deliver py es (record (received Names.ticker s) { projector = q.0 }), ok tt)))
          (apply_nan payload at s.projector h)

  -- A message of the ticker channel whose first ticker has a symbol and a NaN for its price ends a
  -- reader that runs, with the state degraded and the reader failed, and delivers nothing.
  pub read-HasNan :
      (payload : Fields) (at : ℕ) (s : Session)
      → HasNan payload
      → s.reading ≡ true
      → ((read py (frame (object payload)) at s).reading ≡ false)
        × ((read py (frame (object payload)) at s).state ≡ degraded)
        × ((read py (frame (object payload)) at s).diagnostics.reader_final_state ≡ failed)
        × ((read py (frame (object payload)) at s).queue ≡ s.queue)
  unfolding finalize_reader
  read-HasNan payload at s h r =
      let e = read_ends payload at s h r in
      (
        ap (λ t. t.reading) e,
        ap (λ t. t.state) e,
        ap (λ t. t.diagnostics.reader_final_state) e,
        ap (λ t. t.queue) e,
      )
