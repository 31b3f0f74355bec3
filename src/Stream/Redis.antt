-- ===== src/Stream/Redis.antt =====
-- The Redis commands that storage.py calls, as an interface with their documented behaviour. A key
-- stands for the text of its f-string, and a value for the JSON or number that the code stores. The
-- times to live are left out: what holds of a state holds until the keys expire.
use smart_market_data_gatewa.Prelude.{
  ℕ, ◌+◌, ◌≡◌, Bool, true, false, ◌&&◌, ◌==◌, if◌then◌else◌, Option, none, some,
}
use smart_market_data_gatewa.Domain.Quote.{QuoteEvent}
use smart_market_data_gatewa.Candles.Base.{BaseMinuteCandle}

pub record GapObservation : Type 0 where
  pub symbol : ℕ
  pub previous_sequence : ℕ
  pub current_sequence : ℕ
  pub gap : ℕ
  pub out_of_order : Bool

pub data Key : Type 0 where
  latest dedupe retry : ℕ → Key
  candle : ℕ → ℕ → Key
  sequence health : ℕ → ℕ → Key

pub data Value : Type 0 where
  quote : QuoteEvent → Value
  minute : BaseMinuteCandle → Value
  number : ℕ → Value
  degraded : GapObservation → Value
  mark : Value

-- Keys with the same text.
abbrev pub key_eq : Key → Key → Bool
key_eq (latest a) (latest b) = a == b
key_eq (dedupe a) (dedupe b) = a == b
key_eq (retry a) (retry b) = a == b
key_eq (candle a t) (candle b u) = a == b && t == u
key_eq (sequence p a) (sequence q b) = p == q && a == b
key_eq (health p a) (health q b) = p == q && a == b
key_eq j k = false

-- The commands, on the server's state.
pub record Redis (S : Type 0) : Type 0 where
  pub get : S → Key → Option Value
  pub set : S → Key → Value → S
  pub set_nx : S → Key → Value → S × Bool
  pub incr : S → Key → S × ℕ
  -- the index of a symbol's candles
  pub zadd : S → ℕ → ℕ → S
  pub zremrangebyscore : S → ℕ → ℕ → S
  pub publish : S → QuoteEvent → S
  pub xack : S → ℕ → S
  -- `XADD` to the stream of dead letters
  pub dead_letter : S → ℕ → ℕ → S
  -- whether an entry of the stream of quotes has been acknowledged
  pub acked : S → ℕ → Bool

-- Their documented behaviour.
pub record IsRedis {S : Type 0} (r : Redis S) : Type 0 where
  pub get-set :
      (s : S) (k : Key) (v : Value) (j : Key)
      → r.get (r.set s k v) j ≡ (if key_eq k j then some v else r.get s j)
  pub set_nx_new :
      (s : S) (k : Key) (v : Value) → r.get s k ≡ none → r.set_nx s k v ≡ (r.set s k v, true)
  pub set_nx_old :
      (s : S) (k : Key) (v u : Value) → r.get s k ≡ some u → r.set_nx s k v ≡ (s, false)
  pub get-incr : (s : S) (k j : Key) → key_eq k j ≡ false → r.get (r.incr s k).0 j ≡ r.get s j
  pub get-zadd : (s : S) (a t : ℕ) (j : Key) → r.get (r.zadd s a t) j ≡ r.get s j
  pub get-zremrangebyscore :
      (s : S) (a t : ℕ) (j : Key) → r.get (r.zremrangebyscore s a t) j ≡ r.get s j
  pub get-publish : (s : S) (e : QuoteEvent) (j : Key) → r.get (r.publish s e) j ≡ r.get s j
  pub get-xack : (s : S) (i : ℕ) (j : Key) → r.get (r.xack s i) j ≡ r.get s j
  pub get-dead_letter : (s : S) (i n : ℕ) (j : Key) → r.get (r.dead_letter s i n) j ≡ r.get s j
  pub incr_new : (s : S) (k : Key) → r.get s k ≡ none → (r.incr s k).1 ≡ 1
  pub incr_number : (s : S) (k : Key) (n : ℕ) → r.get s k ≡ some (number n) → (r.incr s k).1 ≡ n + 1
  pub get-incr_same : (s : S) (k : Key) → r.get (r.incr s k).0 k ≡ some (number (r.incr s k).1)
  pub acked-incr : (s : S) (k : Key) (i : ℕ) → r.acked (r.incr s k).0 i ≡ r.acked s i
  pub acked-xack : (s : S) (i : ℕ) → r.acked (r.xack s i) i ≡ true
