-- ===== src/Lib.antt =====
-- The Smart Market Data Gateway: a Python service (src/smart_market_data_gateway) that takes quotes
-- from market data providers, carries them through a Redis stream, caches the latest quote and the
-- candles of each minute, archives those candles in PostgreSQL, and delivers quotes to websocket
-- clients within the limits of their tiers. A recorder on the client's side writes what it receives
-- to a hash-chained ledger.
--
-- Files and the code they model, with paths from src/smart_market_data_gateway:
--   Domain     domain/models.py: the quote event, the semantics of its evidence, their validators
--   Candles    candles.py: buckets and windows of time, one-minute candles, their aggregation
--   Archive    candle_archive.py: the tables of the archive, the upsert of an event, and the merge
--              of the recent history in Redis with the archive's
--   Providers  providers/coinbase.py: JSON values, the projection of messages to quote events, the
--              session with its connection, subscriptions, acknowledgements and reader
--   Qos        qos.py: the latest-value buffer, the client sessions and the connection hub
--   Stream     storage.py: the atomic update of a minute's candle, the detection of gaps;
--              pipeline.py: the processor of the stream of quotes
--   Subscriptions  subscriptions.py: the registry with its Redis scripts; Collected joins it with the
--              collector
--   Collector  collector.py: the loop over batches of control messages, the supervision of the
--              provider with its back-off
--   RateLimit  rate_limit.py: the token bucket
--   Recorder   recorder.py: the ledger's verifier from the bytes of the file on, the writer with
--              its append loop, and the recorder of the messages of a stream
--   Prelude    Boolean tests, lists, association lists, texts and outcomes, that the parts share
--
-- How the state corresponds: a record for each class or model, an association list in order of
-- insertion for a dict, a list for a set, a partial function for a table with a primary key. A
-- method under a lock or on the event loop is one step. An exception is the constructor `raised` of
-- `Outcome`, by its class.
--
-- Numbers: a price or quantity is a natural number of some fixed unit, since the code only compares
-- and adds decimals, whose sums are taken not to be rounded; what Coinbase sends may also be infinite
-- or no number. An instant is a number of microseconds from the Unix epoch; symbols, event ids
-- and providers are numbers in the order of their texts, and symbols are in upper case.
-- The controls of the registry are the history of what was added to their stream, which itself keeps
-- about ten thousand. Waits are in microseconds. Tokens are counted in units of a sixty-millionth.
--
-- Loops are recursion on the list they walk, but for the append loop of the ledger writer, which
-- runs on fuel: a round for each byte of the payload and one more, which is enough since a round
-- that writes no byte ends the loop.
--
-- The rounds of the optimistic update run on the retry limit, as in the code.
--
-- Parameters: the Redis commands, with their documented behaviour as hypotheses, and what other
-- clients do to the server between two commands; SHA-256, of which only the form of its digests is
-- used; Python's `str` of lists and dicts, `Decimal`, `fromisoformat` and `uuid5`; what the
-- websocket client answers; what each `os.write`, `fsync` and `ftruncate` answers; `json.loads` of
-- a line of the ledger; `random.uniform`, which answers at most its bound; the session id; the
-- symbol limits of the tiers.
--
-- Not modelled: logs and metrics, the HTTP and websocket endpoints, authentication, the websocket
-- client itself and the mock provider, usage accounting, connection leases, the servers and the
-- failures of their commands, the expiry of keys, configuration, and the front end.
pub mod Prelude
pub mod Domain
pub mod Candles
pub mod Archive
pub mod Providers
pub mod Qos
pub mod Recorder
pub mod Stream
pub mod RateLimit
pub mod Collector
pub mod Subscriptions
