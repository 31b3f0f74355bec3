-- ===== src/Qos/Hub.antt =====
-- qos.py: `QoSPolicyService`, `ClientSession` and `ConnectionHub`. Sets are lists, and each method
-- is one step, as it holds the lock (`publish` too: a session that closes between the lookup and
-- the delivery ignores the quote). Metrics are left out.
pub mod Index
pub mod Agreement
pub mod Routing
use smart_market_data_gatewa.Prelude.{
  ℕ, Bool, true, false, ltb, if◌then◌else◌, Option, none, some, List, [], ◌∷◌, length, contains,
  insert, discard,
}
use smart_market_data_gatewa.Prelude.Dict.{Dict, get, put, remove}
use smart_market_data_gatewa.Prelude.Outcome.{
  Outcome, ok, raised, value_error, key_error, refuse_if, ◌>>=◌, ◌>>◌,
}
use smart_market_data_gatewa.Domain.Evidence.{ServiceTier}
use smart_market_data_gatewa.Domain.Quote.{QuoteEvent}
use smart_market_data_gatewa.Qos.Buffer.{Buffer, put_event, close}

pub record Session : Type 0 where
  pub connection_id : ℕ
  pub tier : ServiceTier
  pub buffer : Buffer
  pub subscriptions : List ℕ

pub record Hub : Type 0 where
  pub sessions : Dict Session
  pub symbol_sessions : Dict (List ℕ)

-- `policy_for(tier).max_symbols`, from the settings.
abbrev pub MaxSymbols : Type 0
MaxSymbols = ServiceTier → ℕ

pub validate_symbol_count : MaxSymbols → ServiceTier → ℕ → Outcome (Unit {0})
validate_symbol_count max_symbols tier count = refuse_if (ltb (max_symbols tier) count) value_error

-- `s | t`
unfoldable pub union : List ℕ → List ℕ → List ℕ
union xs [] = xs
union xs (y ∷ ys) = union (insert y xs) ys

-- `s - t`, `s & t`, and `s` with each of `t` discarded.
unfoldable pub minus : List ℕ → List ℕ → List ℕ
minus [] ys = []
minus (x ∷ xs) ys = let rest = minus xs ys in if contains ys x then rest else x ∷ rest

unfoldable pub both : List ℕ → List ℕ → List ℕ
both [] ys = []
both (x ∷ xs) ys = let rest = both xs ys in if contains ys x then x ∷ rest else rest

unfoldable pub discard_all : List ℕ → List ℕ → List ℕ
discard_all xs [] = xs
discard_all xs (y ∷ ys) = discard_all (discard y xs) ys

abbrev pub members : Option (List ℕ) → List ℕ
members none = []
members (some cids) = cids

-- `setdefault(symbol, set()).add(connection_id)` for each symbol.
pub index_all : ℕ → Dict (List ℕ) → List ℕ → Dict (List ℕ)
index_all cid m [] = m
index_all cid m (s ∷ ss) = index_all cid (put m s (insert cid (members (get m s)))) ss

abbrev shrunk : Dict (List ℕ) → ℕ → List ℕ → Dict (List ℕ)
shrunk m s [] = remove m s
shrunk m s (c ∷ cids) = put m s (c ∷ cids)

abbrev unindex : ℕ → Dict (List ℕ) → ℕ → Option (List ℕ) → Dict (List ℕ)
unindex cid m s none = m
unindex cid m s (some cids) = shrunk m s (discard cid cids)

-- The loop that takes a connection out of the sets of some symbols, and drops the sets it empties.
pub unindex_all : ℕ → Dict (List ℕ) → List ℕ → Dict (List ℕ)
unindex_all cid m [] = m
unindex_all cid m (s ∷ ss) = unindex_all cid (unindex cid m s (get m s)) ss

pub add : Hub → Session → Hub
add hub session = record hub { sessions = put hub.sessions session.connection_id session }

abbrev closed_session : Session → Session
closed_session session = record session { buffer = close session.buffer }

abbrev removed : Hub → ℕ → Option Session → Hub × Option Session
removed hub cid none = (hub, none)
removed hub cid (some session) = (
  record {
    sessions = remove hub.sessions cid;
    symbol_sessions = unindex_all cid hub.symbol_sessions session.subscriptions;
  },
  some (closed_session session),
)

-- `remove`, with the session it hands back.
pub remove_session : Hub → ℕ → Hub × Option Session
remove_session hub cid = removed hub cid (get hub.sessions cid)

abbrev find_session : Option Session → Outcome Session
find_session none = raised key_error
find_session (some session) = ok session

pub subscribe : MaxSymbols → Hub → ℕ → List ℕ → Outcome (Hub × List ℕ)
subscribe max_symbols hub cid symbols = do
  session ← find_session (get hub.sessions cid)
  let combined = union session.subscriptions symbols
  validate_symbol_count max_symbols session.tier (length combined)
  let added = minus symbols session.subscriptions
  let session' = record session { subscriptions = union session.subscriptions added }
  ok (
    record {
      sessions = put hub.sessions cid session';
      symbol_sessions = index_all cid hub.symbol_sessions added;
    },
    added,
  )

pub unsubscribe : Hub → ℕ → List ℕ → Outcome (Hub × List ℕ)
unsubscribe hub cid symbols = do
  session ← find_session (get hub.sessions cid)
  let gone = both symbols session.subscriptions
  let session' = record session { subscriptions = discard_all session.subscriptions gone }
  ok (
    record {
      sessions = put hub.sessions cid session';
      symbol_sessions = unindex_all cid hub.symbol_sessions gone;
    },
    gone,
  )

-- One session's share of `publish`.
offer : Dict Session → ℕ → QuoteEvent → Option Session → Outcome (Dict Session)
offer sessions cid event none = ok sessions
offer sessions cid event (some session) = do
  stored ← put_event session.buffer event
  ok (put sessions cid (record session { buffer = stored.0 }))

offer_all : Dict Session → QuoteEvent → List ℕ → Outcome (Dict Session)
offer_all sessions event [] = ok sessions
offer_all sessions event (cid ∷ cids) = do
  next ← offer sessions cid event (get sessions cid)
  offer_all next event cids

pub publish : Hub → QuoteEvent → Outcome Hub
publish hub event = do
  sessions ← offer_all hub.sessions event (members (get hub.symbol_sessions event.symbol))
  ok (record hub { sessions = sessions })
