-- ===== src/Providers/Coinbase/Names.antt =====
-- providers/coinbase.py: the names of channels and fields, as texts.
use smart_market_data_gatewa.Prelude.{[], ◌∷◌}
use smart_market_data_gatewa.Prelude.Text.{Text}

-- "channel"
abbrev pub channel : Text
channel = 99 ∷ 104 ∷ 97 ∷ 110 ∷ 110 ∷ 101 ∷ 108 ∷ []

-- "ticker"
abbrev pub ticker : Text
ticker = 116 ∷ 105 ∷ 99 ∷ 107 ∷ 101 ∷ 114 ∷ []

-- "market_trades"
abbrev pub market_trades : Text
market_trades = 109 ∷ 97 ∷ 114 ∷ 107 ∷ 101 ∷ 116 ∷ 95 ∷ 116 ∷ 114 ∷ 97 ∷ 100 ∷ 101 ∷ 115 ∷ []

-- "timestamp"
abbrev pub timestamp_name : Text
timestamp_name = 116 ∷ 105 ∷ 109 ∷ 101 ∷ 115 ∷ 116 ∷ 97 ∷ 109 ∷ 112 ∷ []

-- "events"
abbrev pub events : Text
events = 101 ∷ 118 ∷ 101 ∷ 110 ∷ 116 ∷ 115 ∷ []

-- "tickers"
abbrev pub tickers : Text
tickers = 116 ∷ 105 ∷ 99 ∷ 107 ∷ 101 ∷ 114 ∷ 115 ∷ []

-- "trades"
abbrev pub trades : Text
trades = 116 ∷ 114 ∷ 97 ∷ 100 ∷ 101 ∷ 115 ∷ []

-- "product_id"
abbrev pub product_id : Text
product_id = 112 ∷ 114 ∷ 111 ∷ 100 ∷ 117 ∷ 99 ∷ 116 ∷ 95 ∷ 105 ∷ 100 ∷ []

-- "price"
abbrev pub price : Text
price = 112 ∷ 114 ∷ 105 ∷ 99 ∷ 101 ∷ []

-- "best_bid"
abbrev pub best_bid : Text
best_bid = 98 ∷ 101 ∷ 115 ∷ 116 ∷ 95 ∷ 98 ∷ 105 ∷ 100 ∷ []

-- "best_ask"
abbrev pub best_ask : Text
best_ask = 98 ∷ 101 ∷ 115 ∷ 116 ∷ 95 ∷ 97 ∷ 115 ∷ 107 ∷ []

-- "best_bid_quantity"
abbrev pub best_bid_quantity : Text
best_bid_quantity =
    98 ∷ 101 ∷ 115 ∷ 116 ∷ 95 ∷ 98 ∷ 105 ∷ 100 ∷ 95 ∷ 113 ∷ 117 ∷ 97 ∷ 110 ∷ 116 ∷ 105 ∷ 116 ∷ 121
    ∷ []

-- "best_ask_quantity"
abbrev pub best_ask_quantity : Text
best_ask_quantity =
    98 ∷ 101 ∷ 115 ∷ 116 ∷ 95 ∷ 97 ∷ 115 ∷ 107 ∷ 95 ∷ 113 ∷ 117 ∷ 97 ∷ 110 ∷ 116 ∷ 105 ∷ 116 ∷ 121
    ∷ []

-- "size"
abbrev pub size : Text
size = 115 ∷ 105 ∷ 122 ∷ 101 ∷ []

-- "side"
abbrev pub side : Text
side = 115 ∷ 105 ∷ 100 ∷ 101 ∷ []

-- "SELL"
abbrev pub sell : Text
sell = 83 ∷ 69 ∷ 76 ∷ 76 ∷ []

-- "BUY"
abbrev pub buy : Text
buy = 66 ∷ 85 ∷ 89 ∷ []

-- "trade_id"
abbrev pub trade_id : Text
trade_id = 116 ∷ 114 ∷ 97 ∷ 100 ∷ 101 ∷ 95 ∷ 105 ∷ 100 ∷ []

-- "time"
abbrev pub time : Text
time = 116 ∷ 105 ∷ 109 ∷ 101 ∷ []

-- "coinbase-advanced-trade"
abbrev pub provider_name : Text
provider_name =
    99 ∷ 111 ∷ 105 ∷ 110 ∷ 98 ∷ 97 ∷ 115 ∷ 101 ∷ 45 ∷ 97 ∷ 100 ∷ 118 ∷ 97 ∷ 110 ∷ 99 ∷ 101 ∷ 100
    ∷ 45 ∷ 116 ∷ 114 ∷ 97 ∷ 100 ∷ 101 ∷ []

-- "heartbeats"
abbrev pub heartbeats : Text
heartbeats = 104 ∷ 101 ∷ 97 ∷ 114 ∷ 116 ∷ 98 ∷ 101 ∷ 97 ∷ 116 ∷ 115 ∷ []

-- "subscriptions"
abbrev pub subscriptions : Text
subscriptions = 115 ∷ 117 ∷ 98 ∷ 115 ∷ 99 ∷ 114 ∷ 105 ∷ 112 ∷ 116 ∷ 105 ∷ 111 ∷ 110 ∷ 115 ∷ []

-- "channels"
abbrev pub channels : Text
channels = 99 ∷ 104 ∷ 97 ∷ 110 ∷ 110 ∷ 101 ∷ 108 ∷ 115 ∷ []

-- "name"
abbrev pub name : Text
name = 110 ∷ 97 ∷ 109 ∷ 101 ∷ []

-- "unknown"
abbrev pub unknown : Text
unknown = 117 ∷ 110 ∷ 107 ∷ 110 ∷ 111 ∷ 119 ∷ 110 ∷ []

-- "unparsed"
abbrev pub unparsed : Text
unparsed = 117 ∷ 110 ∷ 112 ∷ 97 ∷ 114 ∷ 115 ∷ 101 ∷ 100 ∷ []

-- "personal_research"
abbrev pub personal_research : Text
personal_research =
    112 ∷ 101 ∷ 114 ∷ 115 ∷ 111 ∷ 110 ∷ 97 ∷ 108 ∷ 95 ∷ 114 ∷ 101 ∷ 115 ∷ 101 ∷ 97 ∷ 114 ∷ 99 ∷ 104
    ∷ []

-- "production"
abbrev pub production : Text
production = 112 ∷ 114 ∷ 111 ∷ 100 ∷ 117 ∷ 99 ∷ 116 ∷ 105 ∷ 111 ∷ 110 ∷ []
