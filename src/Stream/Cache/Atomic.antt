-- ===== src/Stream/Cache/Atomic.antt =====
-- The rounds of `cache_quote` are one atomic update.
use smart_market_data_gatewa.Prelude.{
  ℕ, zero, suc, ◌+◌, ◌≤◌, ◌<◌, ◌≡◌, ◌≢◌, ◌∙◌, refl, ap, Bool, true, false, Option, none, some,
  arith,
}
use smart_market_data_gatewa.Prelude.Outcome.{Outcome, Error, ok, raised, runtime_error}
use smart_market_data_gatewa.Domain.Quote.{QuoteEvent}
use smart_market_data_gatewa.Candles.Time.{floor_time}
use smart_market_data_gatewa.Candles.Base.{BaseMinuteCandle, from_quote, with_quote}
use smart_market_data_gatewa.Stream.Redis.{
  Redis, Value, quote, minute, number, degraded, mark, candle,
}
use smart_market_data_gatewa.Stream.Cache.{read_candle, commit, attempts}

module _ {S : Type 0} (r : Redis S) (rivals : ℕ → S → S × Bool) where
  -- States that the rivals lead to.
  pub data Later (s : S) : S → Type 0 where
    here : Later s s
    disturbed : {t : S} (n : ℕ) → Later s t → Later s (rivals n t).0

  -- `EXEC` runs only if no rival wrote the watched key.
  abbrev pub IsWatched : QuoteEvent → ℕ → Type 0
  IsWatched event bucket =
      (n : ℕ) (s : S)
      → (rivals n s).1 ≡ false
      → r.get (rivals n s).0 (candle event.symbol bucket) ≡ r.get s (candle event.symbol bucket)

  -- What the rounds come to: one atomic update of a state that the rivals led to, made from the
  -- candle in that very state; or a refusal or an error that wrote nothing.
  pub data Cached (event : QuoteEvent) (bucket expired : ℕ) (s : S)
      : S × Outcome (Unit {0}) → Type 0 where
    done :
        (t : S) (c : BaseMinuteCandle)
        → Later s t
        → read_candle (r.get t (candle event.symbol bucket)) event ≡ ok c
        → Cached event bucket expired s (commit r event bucket expired c t, ok tt)
    refused :
        (t : S) (e : Error)
        → Later s t
        → read_candle (r.get t (candle event.symbol bucket)) event ≡ raised e
        → Cached event bucket expired s (t, raised e)
    contended : (t : S) → Later s t → Cached event bucket expired s (t, raised runtime_error)

  Later-append : {s t u : S} → Later s t → Later t u → Later s u
  Later-append a here = a
  Later-append a (disturbed n b) = disturbed n (Later-append a b)

module _ {S : Type 0} (r : Redis S) (rivals : ℕ → S → S × Bool) where
  Cached-Later :
      (event : QuoteEvent) (bucket expired : ℕ) (s t : S) {x : S × Outcome (Unit {0})}
      → Later r rivals s t
      → Cached r rivals event bucket expired t x
      → Cached r rivals event bucket expired s x
  Cached-Later event bucket expired s t l (done u c k e) = done u c (Later-append r rivals l k) e
  Cached-Later event bucket expired s t l (refused u x k e) =
      refused u x (Later-append r rivals l k) e
  Cached-Later event bucket expired s t l (contended u k) = contended u (Later-append r rivals l k)

  round_done :
      (event : QuoteEvent) (bucket expired n : ℕ) (s : S) (left : ℕ)
      (read : Outcome BaseMinuteCandle) (touched : Bool)
      → read_candle (r.get s (candle event.symbol bucket)) event ≡ read
      → (rivals n s).1 ≡ touched
      → (touched ≡ false
          → r.get (rivals n s).0 (candle event.symbol bucket)
            ≡ r.get s (candle event.symbol bucket))
      → Cached r rivals event bucket expired
          (rivals n s).0
          (attempts r rivals left (suc n) event bucket expired (rivals n s).0)
      → Cached r rivals event bucket expired s
          (attempts r rivals (suc left) n event bucket expired s)
  unfolding attempts
  round_done event bucket expired n s left (raised e) touched p q w rest = rw p (refused s e here p)
  round_done event bucket expired n s left (ok c) true p q w rest =
      rw (p, q) (Cached-Later event bucket expired s (rivals n s).0 (disturbed n here) rest)
  round_done event bucket expired n s left (ok c) false p q w rest =
      rw (p, q)
        (done (rivals n s).0 c (disturbed n here) (ap (λ v. read_candle v event) (w refl) ∙ p))

  -- For any number of rounds, if an undisturbed round leaves the watched candle as it was, the
  -- rounds come to one atomic update: the candle that is stored is made from the candle in the very
  -- state to which the update is applied, so no rival's quote is lost; or they come to an error,
  -- and then nothing was written.
  pub attempts-Cached :
      (event : QuoteEvent) (bucket expired left n : ℕ) (s : S)
      → IsWatched r rivals event bucket
      → Cached r rivals event bucket expired s (attempts r rivals left n event bucket expired s)
  unfolding attempts
  attempts-Cached event bucket expired zero n s w = contended s here
  attempts-Cached event bucket expired (suc left) n s w =
      round_done event bucket expired n s left _ _ refl refl (w n s)
        (attempts-Cached event bucket expired left (suc n) (rivals n s).0 w)

  read_candle-no_runtime_error :
      (v : Option Value) (event : QuoteEvent) → read_candle v event ≢ raised runtime_error
  unfolding read_candle from_quote with_quote floor_time
  read_candle-no_runtime_error none event h = ground arith
  read_candle-no_runtime_error (some (quote e)) event h = cc
  read_candle-no_runtime_error (some (minute c)) event h = ground arith
  read_candle-no_runtime_error (some (number m)) event h = cc
  read_candle-no_runtime_error (some (degraded g)) event h = cc
  read_candle-no_runtime_error (some mark) event h = cc

  settled :
      (event : QuoteEvent) (bucket expired left n : ℕ) (s : S) (read : Outcome BaseMinuteCandle)
      (touched : Bool)
      → read_candle (r.get s (candle event.symbol bucket)) event ≡ read
      → (rivals n s).1 ≡ touched
      → (touched ≡ true
          → (attempts r rivals left (suc n) event bucket expired (rivals n s).0).1
            ≢ raised runtime_error)
      → (attempts r rivals (suc left) n event bucket expired s).1 ≢ raised runtime_error
  unfolding attempts
  settled event bucket expired left n s (raised e) touched p q rest =
      rw p (λ h. read_candle-no_runtime_error _ event (p ∙ cc))
  settled event bucket expired left n s (ok c) true p q rest = rw (p, q) (rest refl)
  settled event bucket expired left n s (ok c) false p q rest = rw (p, q) (λ h. cc)

  -- If in one of the rounds that are left no rival writes the candle, whatever the state, the
  -- rounds do not run out.
  pub attempts_settle :
      (event : QuoteEvent) (bucket expired left n m : ℕ) (s : S)
      → n ≤ m
      → m < n + left
      → ((t : S) → (rivals m t).1 ≡ false)
      → (attempts r rivals left n event bucket expired s).1 ≢ raised runtime_error
  attempts_settle event bucket expired zero n m s h k quiet = absurd (omega arith)
  attempts_settle event bucket expired (suc left) n m s h k quiet =
      settled event bucket expired left n s _ _ refl refl λ touched.
        attempts_settle event bucket expired left (suc n) m (rivals n s).0 (ground (arith, quiet s))
          (omega arith) quiet
