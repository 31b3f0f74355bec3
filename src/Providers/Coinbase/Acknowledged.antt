-- ===== src/Providers/Coinbase/Acknowledged.antt =====
-- providers/coinbase.py: the acknowledgements of subscriptions.
use smart_market_data_gatewa.Prelude.{Bool, true, ◌&&◌, if◌then◌else◌, List, [], ◌∷◌}
use smart_market_data_gatewa.Prelude.Text.{Text, has_text, add_text}
use smart_market_data_gatewa.Prelude.Outcome.{Outcome, ok}
use smart_market_data_gatewa.Providers.Coinbase.Json.{
  Json, null, string, scalar, array, object, Fields, empty, field, get, get_or, Python, str, strip,
}
use smart_market_data_gatewa.Providers.Coinbase.Values.{mapping_items}
use smart_market_data_gatewa.Providers.Coinbase.Names
use smart_market_data_gatewa.Providers.Coinbase.Projector.{given, after}
use smart_market_data_gatewa.Providers.Coinbase.State.{Session, record_subscription_acknowledgement}

-- `_REQUIRED_CHANNELS`
abbrev pub required_channels : List Text
required_channels = Names.heartbeats ∷ Names.ticker ∷ Names.market_trades ∷ []

abbrev pub all_in : List Text → List Text → Bool
all_in [] channels = true
all_in (c ∷ cs) channels = has_text channels c && all_in cs channels

unfoldable pub sync_ack_event : Session → Session
sync_ack_event s = record s { all_acknowledged = all_in required_channels s.acknowledged_channels }

abbrev noted : Text → Session → Session
noted name s = record s { diagnostics = record_subscription_acknowledgement name s.diagnostics }

unfoldable pub record_acknowledged_channel : Text → Session → Session
record_acknowledged_channel name s =
    if has_text required_channels name
    then sync_ack_event
        (record (noted name s) { acknowledged_channels = add_text name s.acknowledged_channels })
    else noted name s

abbrev pub record_named : Text → Session → Session
record_named [] s = s
record_named (c ∷ name) s = record_acknowledged_channel (c ∷ name) s

unfoldable pub record_keys : Fields → Session → Session
record_keys empty s = s
record_keys (field n v fields) s = record_keys fields (record_named n s)

module _ (py : Python) where
  unfoldable pub record_items : List Fields → Session → Session
  record_items [] s = s
  record_items (item ∷ items) s =
      record_items items (record_named (strip (str py (get_or item Names.name (string [])))) s)

  unfoldable pub record_acknowledged_channels : Json → Session → Session × Outcome (Unit {0})
  record_acknowledged_channels null s = (s, ok tt)
  record_acknowledged_channels (scalar truth t) s = (s, ok tt)
  record_acknowledged_channels (string t) s = (s, ok tt)
  record_acknowledged_channels (object fields) s = (record_keys fields s, ok tt)
  record_acknowledged_channels (array items) s =
      given s (mapping_items items) λ fields. (record_items fields s, ok tt)

  -- The keys "subscriptions" and "channels" of a payload or of one of its events.
  abbrev pub record_both : Fields → Session → Session × Outcome (Unit {0})
  record_both fields s =
      after (record_acknowledged_channels (get fields Names.subscriptions) s)
        λ t u. record_acknowledged_channels (get fields Names.channels) t

  unfoldable pub record_each : List Fields → Session → Session × Outcome (Unit {0})
  record_each [] s = (s, ok tt)
  record_each (event ∷ events) s = after (record_both event s) λ t u. record_each events t

  abbrev pub record_events : Json → Session → Session × Outcome (Unit {0})
  record_events null s = (s, ok tt)
  record_events (scalar truth t) s = (s, ok tt)
  record_events (string t) s = (s, ok tt)
  record_events (object fields) s = (s, ok tt)
  record_events (array items) s = given s (mapping_items items) λ events. record_each events s

  unfoldable pub record_subscription_acknowledgements :
      Fields → Session → Session × Outcome (Unit {0})
  record_subscription_acknowledgements payload s =
      after (record_both payload s) λ t u. record_events (get payload Names.events) t
