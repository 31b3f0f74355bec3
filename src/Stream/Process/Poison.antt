-- ===== src/Stream/Process/Poison.antt =====
-- An entry of the stream whose payload is no event.
use smart_market_data_gatewa.Prelude.{
  ℕ, zero, suc, ◌≤◌, ◌≡◌, ◌∙◌, Bool, true, false, leb, if◌then◌else◌, Option, none, some, arith,
}
use smart_market_data_gatewa.Prelude.Outcome.{Error, raised}
use smart_market_data_gatewa.Stream.Redis.{Redis, IsRedis, Value, retry, number}
use smart_market_data_gatewa.Stream.Cache.{Settings}
use smart_market_data_gatewa.Stream.Process.{Payload, decode, handle_failure, process_one}

module _ {S : Type 0} (r : Redis S) (rivals : ℕ → S → S × Bool) (settings : Settings) where
  -- One entry delivered a number of times.
  unfoldable pub deliveries : ℕ → ℕ → Payload → ℕ → S → S
  deliveries zero i payload now s = s
  deliveries (suc n) i payload now s =
      process_one r rivals settings i payload now (deliveries n i payload now s)

  retries : ℕ → Option Value
  retries zero = none
  retries (suc n) = some (number (suc n))

module _ {S : Type 0} (r : Redis S) (redis : IsRedis r) (rivals : ℕ → S → S × Bool)
    (settings : Settings) where
  incr-retries :
      (s : S) (i n : ℕ)
      → r.get s (retry i) ≡ retries r rivals settings n
      → (r.incr s (retry i)).1 ≡ suc n
  unfolding retries
  incr-retries s i zero h = redis.incr_new s (retry i) h
  incr-retries s i (suc n) h = redis.incr_number s (retry i) (suc n) h ∙ omega arith

  failed :
      (s : S) (i n : ℕ)
      → r.get s (retry i) ≡ retries r rivals settings n
      → (r.get (handle_failure r rivals settings i s) (retry i) ≡ retries r rivals settings (suc n))
        × (r.acked (handle_failure r rivals settings i s) i
            ≡ (if leb settings.retry_limit (suc n) then true else r.acked s i))
  unfolding handle_failure retries
  failed s i n h =
      let t = r.incr s (retry i) in
      let c = incr-retries s i n h in
      (
        ground (
          arith,
          c,
          redis.get-incr_same s (retry i),
          redis.get-dead_letter t.0 i t.1 (retry i),
          redis.get-xack (r.dead_letter t.0 i t.1) i (retry i),
        ),
        ground (
          arith,
          c,
          redis.acked-incr s (retry i) i,
          redis.acked-xack (r.dead_letter t.0 i t.1) i,
        ),
      )

  step :
      (i now n : ℕ) (payload : Payload) (x : Error) (s : S)
      → decode payload ≡ raised x
      → r.get s (retry i) ≡ none
      → r.get (deliveries r rivals settings n i payload now s) (retry i)
        ≡ retries r rivals settings n
  unfolding deliveries process_one retries
  step i now zero payload x s d h = h
  step i now (suc n) payload x s d h =
      rw d
        (failed (deliveries r rivals settings n i payload now s) i n
          (step i now n payload x s d h)).0

  -- On a server that behaves as documented: an entry whose payload is no event, not acknowledged
  -- and never failed before, is acknowledged after its n-th delivery exactly if n has reached the
  -- retry limit, when that is at least 1.
  pub deliveries-acked :
      (i now n : ℕ) (payload : Payload) (x : Error) (s : S)
      → decode payload ≡ raised x
      → r.get s (retry i) ≡ none
      → r.acked s i ≡ false
      → 1 ≤ settings.retry_limit
      → r.acked (deliveries r rivals settings n i payload now s) i ≡ leb settings.retry_limit n
  unfolding deliveries process_one
  deliveries-acked i now zero payload x s d h a l = ground arith
  deliveries-acked i now (suc n) payload x s d h a l = rw d (
      ground (
        arith,
        (failed (deliveries r rivals settings n i payload now s) i n
            (step i now n payload x s d h)).1,
        deliveries-acked i now n payload x s d h a l,
      ))
