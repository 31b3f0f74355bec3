-- ===== src/Stream/Process/Replay.antt =====
-- A second delivery of an event, under whatever entry of the stream.
use smart_market_data_gatewa.Prelude.{
  ℕ, zero, suc, ◌≡◌, ◌∙◌, refl, ap, Bool, true, false, if◌then◌else◌, is_some, Option, none, some,
  arith, Bool-cases, Option-cases, inl, inr,
}
use smart_market_data_gatewa.Prelude.Outcome.{Outcome, ok, raised}
use smart_market_data_gatewa.Domain.Quote.{QuoteEvent, validate_market}
use smart_market_data_gatewa.Candles.Base.{BaseMinuteCandle}
use smart_market_data_gatewa.Candles.Time.{floor_time}
use smart_market_data_gatewa.Stream.Redis.{
  Redis, IsRedis, Key, Value, GapObservation, key_eq, latest, candle, dedupe, retry, health,
  sequence, mark, number, quote, minute, degraded,
}
use smart_market_data_gatewa.Stream.Cache.{
  Settings, resolved, commit, attempts, cache_bucket, cache_quote,
}
use smart_market_data_gatewa.Stream.Sequence.{observe_sequence, observe, observed}
use smart_market_data_gatewa.Stream.Process.{
  event, decode, handle_failure, with_health, fanned_out, cached, accepted, settled, process_one,
}

module _ {S : Type 0} (r : Redis S) (rivals : ℕ → S → S × Bool) where
  -- The id of an event is marked as seen.
  abbrev pub IsSeen : ℕ → S → Type 0
  IsSeen d s = is_some (r.get s (dedupe d)) ≡ true

  -- No rival takes the mark of an event away.
  abbrev pub KeepsSeen : Type 0
  KeepsSeen = (n d : ℕ) (s : S) → IsSeen d s → IsSeen d (rivals n s).0

module _ {S : Type 0} (r : Redis S) (redis : IsRedis r) (rivals : ℕ → S → S × Bool)
    (keeps : KeepsSeen r rivals) where
  set-IsSeen :
      (d : ℕ) (s : S) (k : Key) (v : Value) → IsSeen r rivals d s → IsSeen r rivals d (r.set s k v)
  set-IsSeen d s k v h = elim (Bool-cases (key_eq k (dedupe d))) [
    | inl e ↦ ground (arith, e, redis.get-set s k v (dedupe d))
    | inr n ↦ ground (arith, n, redis.get-set s k v (dedupe d))
  ]

  commit-IsSeen :
      (e : QuoteEvent) (bucket expired : ℕ) (c : BaseMinuteCandle) (d : ℕ) (s : S)
      → IsSeen r rivals d s
      → IsSeen r rivals d (commit r e bucket expired c s)
  unfolding commit
  commit-IsSeen e bucket expired c d s h =
      let s1 = r.set s (latest e.symbol) (quote e) in
      let s2 = r.set s1 (candle e.symbol bucket) (minute c) in
      let s3 = r.zadd s2 e.symbol bucket in
      let h2 =
        set-IsSeen d s1 (candle e.symbol bucket) (minute c)
          (set-IsSeen d s (latest e.symbol) (quote e) h) in
      ap is_some (
        redis.get-zremrangebyscore s3 e.symbol expired (dedupe d)
        ∙ redis.get-zadd s2 e.symbol bucket (dedupe d))
      ∙ h2

  resolved-IsSeen :
      (e : QuoteEvent) (bucket expired d : ℕ) (s t : S) (b : Bool) (rest : S × Outcome (Unit {0}))
      (read : Outcome BaseMinuteCandle)
      → IsSeen r rivals d s
      → IsSeen r rivals d t
      → IsSeen r rivals d rest.0
      → IsSeen r rivals d (resolved r rivals e bucket expired s (t, b) rest read).0
  resolved-IsSeen e bucket expired d s t b rest (raised x) h k l = h
  resolved-IsSeen e bucket expired d s t true rest (ok c) h k l = l
  resolved-IsSeen e bucket expired d s t false rest (ok c) h k l =
      commit-IsSeen e bucket expired c d t k

  attempts-IsSeen :
      (left n : ℕ) (e : QuoteEvent) (bucket expired d : ℕ) (s : S)
      → IsSeen r rivals d s
      → IsSeen r rivals d (attempts r rivals left n e bucket expired s).0
  unfolding attempts
  attempts-IsSeen zero n e bucket expired d s h = h
  attempts-IsSeen (suc left) n e bucket expired d s h =
      resolved-IsSeen e bucket expired d s (rivals n s).0 (rivals n s).1 _ _ h (keeps n d s h)
        (attempts-IsSeen left (suc n) e bucket expired d (rivals n s).0 (keeps n d s h))

  either-IsSeen :
      (d : ℕ) (b : Bool) (x y : S × Outcome (Unit {0}))
      → IsSeen r rivals d x.0
      → IsSeen r rivals d y.0
      → IsSeen r rivals d (if b then x else y).0
  either-IsSeen d true x y h k = h
  either-IsSeen d false x y h k = k

  cache_bucket-IsSeen :
      (settings : Settings) (e : QuoteEvent) (now d : ℕ) (s : S) (bucket : Outcome ℕ)
      → IsSeen r rivals d s
      → IsSeen r rivals d (cache_bucket r rivals settings e now s bucket).0
  cache_bucket-IsSeen settings e now d s (raised x) h = h
  cache_bucket-IsSeen settings e now d s (ok b) h =
      either-IsSeen d _ _ _ (set-IsSeen d s (latest e.symbol) (quote e) h)
        (attempts-IsSeen settings.candle_update_retry_limit 0 e b _ d s h)

  observed-IsSeen :
      (e : QuoteEvent) (n d : ℕ) (s : S) (v : Option Value)
      → IsSeen r rivals d s
      → IsSeen r rivals d (observed r s e n v).0
  observed-IsSeen e n d s none h = set-IsSeen d s (sequence e.provider e.symbol) (number n) h
  observed-IsSeen e n d s (some (number p)) h =
      ground (arith, set-IsSeen d s (sequence e.provider e.symbol) (number n) h)
  observed-IsSeen e n d s (some (quote q)) h = h
  observed-IsSeen e n d s (some (minute c)) h = h
  observed-IsSeen e n d s (some (degraded g)) h = h
  observed-IsSeen e n d s (some mark) h = h

  observe-IsSeen :
      (e : QuoteEvent) (o : Option ℕ) (d : ℕ) (s : S)
      → IsSeen r rivals d s
      → IsSeen r rivals d (observe r s e o).0
  observe-IsSeen e none d s h = h
  observe-IsSeen e (some n) d s h =
      observed-IsSeen e n d s (r.get s (sequence e.provider e.symbol)) h

  with_health-IsSeen :
      (settings : Settings) (e : QuoteEvent) (d : ℕ) (s : S) (o : Option GapObservation)
      → IsSeen r rivals d s
      → IsSeen r rivals d (with_health r rivals settings e s o)
  with_health-IsSeen settings e d s none h = h
  with_health-IsSeen settings e d s (some g) h =
      set-IsSeen d s (health e.provider e.symbol) (degraded g) h

  fanned_out-IsSeen :
      (settings : Settings) (i : ℕ) (e : QuoteEvent) (d : ℕ) (x : S × Outcome (Unit {0}))
      → IsSeen r rivals d x.0
      → IsSeen r rivals d (fanned_out r rivals settings i e x).0
  fanned_out-IsSeen settings i e d (s, raised x) h = h
  fanned_out-IsSeen settings i e d (s, ok u) h =
      ap is_some (redis.get-xack (r.publish s e) i (dedupe d) ∙ redis.get-publish s e (dedupe d))
      ∙ h

  cached-IsSeen :
      (settings : Settings) (i : ℕ) (e : QuoteEvent) (now d : ℕ)
      (x : S × Outcome (Option GapObservation))
      → IsSeen r rivals d x.0
      → IsSeen r rivals d (cached r rivals settings i e now x).0
  unfolding cache_quote
  cached-IsSeen settings i e now d (s, raised x) h = h
  cached-IsSeen settings i e now d (s, ok o) h = fanned_out-IsSeen settings i e d _ (
      cache_bucket-IsSeen settings e now d _ (floor_time e.provider_timestamp 60)
        (with_health-IsSeen settings e d s o h))

  handle_failure-IsSeen :
      (settings : Settings) (i d : ℕ) (s : S)
      → IsSeen r rivals d s
      → IsSeen r rivals d (handle_failure r rivals settings i s)
  unfolding handle_failure
  handle_failure-IsSeen settings i d s h =
      let t = r.incr s (retry i) in
      let e = redis.get-incr s (retry i) (dedupe d) refl in
      ground (
        arith,
        e,
        redis.get-dead_letter t.0 i t.1 (dedupe d),
        redis.get-xack (r.dead_letter t.0 i t.1) i (dedupe d),
      )

  settled-IsSeen :
      (settings : Settings) (i d : ℕ) (x : S × Outcome (Unit {0}))
      → IsSeen r rivals d x.0
      → IsSeen r rivals d (settled r rivals settings i x)
  settled-IsSeen settings i d (s, ok u) h = h
  settled-IsSeen settings i d (s, raised e) h = handle_failure-IsSeen settings i d s h

  -- Past `accept_event_once` the id is marked.
  accepted-IsSeen :
      (settings : Settings) (i : ℕ) (e : QuoteEvent) (now : ℕ) (s : S)
      → IsSeen r rivals e.event_id
          (accepted r rivals settings i e now (r.set_nx s (dedupe e.event_id) mark)).0
  unfolding observe_sequence
  accepted-IsSeen settings i e now s = elim (Option-cases (r.get s (dedupe e.event_id))) [
    | inl fresh ↦ rw (redis.set_nx_new s (dedupe e.event_id) mark fresh) (
        cached-IsSeen settings i e now e.event_id _ (
          observe-IsSeen e e.sequence e.event_id _
            (ground (arith, redis.get-set s (dedupe e.event_id) mark (dedupe e.event_id)))))
    | inr (v, old) ↦
        rw (redis.set_nx_old s (dedupe e.event_id) mark v old)
          (ap is_some (redis.get-xack s i (dedupe e.event_id) ∙ old))
  ]

  process_one-IsSeen :
      (settings : Settings) (i now : ℕ) (e : QuoteEvent) (s : S)
      → validate_market e ≡ ok e
      → IsSeen r rivals e.event_id (process_one r rivals settings i (event e) now s)
  unfolding process_one decode
  process_one-IsSeen settings i now e s h =
      rw h (settled-IsSeen settings i e.event_id _ (accepted-IsSeen settings i e now s))

  process_one-seen :
      (settings : Settings) (i now : ℕ) (e : QuoteEvent) (s : S)
      → validate_market e ≡ ok e
      → IsSeen r rivals e.event_id s
      → process_one r rivals settings i (event e) now s ≡ r.xack s i
  unfolding process_one decode
  process_one-seen settings i now e s h seen = elim (Option-cases (r.get s (dedupe e.event_id))) [
    | inl fresh ↦ absurd (ground (arith, seen, fresh))
    | inr (v, old) ↦ rw (h, redis.set_nx_old s (dedupe e.event_id) mark v old) refl
  ]

  -- On a server that behaves as documented and whose other clients never take away the mark of an
  -- event: once a valid event has been delivered, whatever that came to (done, or failed after the
  -- id was marked), a later delivery of it is acknowledged and does nothing else.
  pub process_one_again :
      (settings : Settings) (e : QuoteEvent) (i j now later : ℕ) (s : S)
      → validate_market e ≡ ok e
      → process_one r rivals settings j
          (event e)
          later
          (process_one r rivals settings i (event e) now s)
        ≡ r.xack (process_one r rivals settings i (event e) now s) j
  process_one_again settings e i j now later s h =
      process_one-seen settings j later e _ h (process_one-IsSeen settings i now e s h)
