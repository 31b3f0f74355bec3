-- ===== src/Collector/Supervision/Backoff.antt =====
-- How long the supervision of a provider waits.
use native.Mathlib.Omega.{pow_step}
use mathlib.Core.List.{append-nil, append_assoc}
use smart_market_data_gatewa.Prelude.{
  ℕ, zero, suc, ◌+◌, ◌*◌, ◌/◌, ◌^◌, ◌≤◌, ◌≡◌, ◌∙◌, sym, refl, ap, min, Bool, true, false,
  if◌then◌else◌, List, [], ◌∷◌, ◌++◌, arith, length, All, All-append,
}
use smart_market_data_gatewa.Prelude.Outcome.{
  Outcome, Error, ok, raised, value_error, key_error, runtime_error, os_error, arithmetic_error,
  cancelled,
}
use smart_market_data_gatewa.Domain.Quote.{QuoteEvent}
use smart_market_data_gatewa.Collector.{Provider}
use smart_market_data_gatewa.Collector.Supervision.{
  Supervisor, provided, disconnected, failed, up, streamed, subscribed, all_subscribed, connected,
  supervise, supervise_all,
}

abbrev Between : ℕ → Type 0
Between n = (500000 ≤ n) × (n ≤ 30000000)

abbrev Waited : ℕ → Type 0
Waited n = (500000 ≤ n) × (n ≤ 37500000)

cap_double :
    (a b : ℕ) → b ≡ a * 2 → min 30000000 (min 30000000 (500000 * a) * 2) ≡ min 30000000 (500000 * b)
cap_double a b e = omega (arith, e)

power_step : (k : ℕ) → 2 ^ (k + 1) ≡ 2 * 2 ^ k
power_step k = let next : k + 1 ≡ suc k = omega arith in ap (λ j. 2 ^ j) next ∙ pow_step 2 k

-- The back-off after k failures in a row.
abbrev pub doubled : ℕ → ℕ
doubled k = min 30000000 (500000 * 2 ^ k)

-- The waits from the k-th failure in a row on: each is the back-off, or up to a quarter more.
abbrev pub IsDoubling : ℕ → List ℕ → Type 0
IsDoubling k [] = Unit
IsDoubling k (w ∷ ws) = (doubled k ≤ w) × (w ≤ doubled k + doubled k / 4) × IsDoubling (k + 1) ws

-- `random.uniform(0.0, hi)` is at most `hi`.
abbrev pub IsUniform : (ℕ → ℕ → ℕ) → Type 0
IsUniform uniform = (draw hi : ℕ) → uniform draw hi ≤ hi

-- The back-off is between half a second and thirty, and every wait was between half a second and
-- thirty-seven and a half.
pub record IsPaced {P : Type 0} (s : Supervisor P) : Type 0 where
  pub next : Between s.backoff
  pub past : All Waited s.waits

-- A provider that refuses every connection with an OSError.
abbrev pub IsDown : {P : Type 0} → Provider P → Type 0
IsDown {P} p = (x : P) → (p.connect x).1 ≡ raised os_error

module _ {P : Type 0} (p : Provider P) (uniform : ℕ → ℕ → ℕ) (fair : IsUniform uniform) where
  disconnected-IsPaced : (s : Supervisor P) → IsPaced s → IsPaced (disconnected p uniform s)
  disconnected-IsPaced s h = record {
    next = (ground (arith, h.next), ground (arith, h.next));
    past =
        All-append Waited s.waits ((s.backoff + uniform s.reconnects (s.backoff / 4)) ∷ []) h.past
          ((omega (arith, h.next), omega (arith, h.next, fair s.reconnects (s.backoff / 4))), tt);
  }

  failed-IsPaced : (e : Error) (s : Supervisor P) → IsPaced s → IsPaced (failed p uniform e s)
  failed-IsPaced cancelled s h = record { next = h.next; past = h.past }
  failed-IsPaced value_error s h = disconnected-IsPaced s h
  failed-IsPaced key_error s h = disconnected-IsPaced s h
  failed-IsPaced runtime_error s h = disconnected-IsPaced s h
  failed-IsPaced os_error s h = disconnected-IsPaced s h
  failed-IsPaced arithmetic_error s h = disconnected-IsPaced s h

  alike : (s t : Supervisor P) → IsPaced s → t.backoff ≡ s.backoff → t.waits ≡ s.waits → IsPaced t
  alike s t h a b = record { next = rw a h.next; past = rw b h.past }

  streamed-IsPaced :
      (s : Supervisor P) (r : P × List QuoteEvent × Outcome (Unit {0}))
      → IsPaced s
      → IsPaced (streamed p uniform s r)
  streamed-IsPaced s (x, es, ok u) h =
      let t = provided p uniform (record s { published = s.published ++ es }) x in
      disconnected-IsPaced t (alike s t h refl refl)
  streamed-IsPaced s (x, es, raised e) h = failed-IsPaced e _ (alike s _ h refl refl)

  subscribed-IsPaced :
      (s : Supervisor P) (r : P × Outcome (Unit {0}))
      → IsPaced s
      → IsPaced (subscribed p uniform s r)
  subscribed-IsPaced s (x, ok u) h =
      streamed-IsPaced (up p uniform (provided p uniform s x)) (p.events x)
        (record { next = (omega arith, omega arith); past = h.past })
  subscribed-IsPaced s (x, raised e) h = failed-IsPaced e _ (alike s _ h refl refl)

  connected-IsPaced :
      (s : Supervisor P) (r : P × Outcome (Unit {0}))
      → IsPaced s
      → IsPaced (connected p uniform s r)
  connected-IsPaced s (x, ok u) h =
      subscribed-IsPaced s (all_subscribed p uniform x s.collector.active_symbols) h
  connected-IsPaced s (x, raised e) h = failed-IsPaced e _ (alike s _ h refl refl)

  supervise-IsPaced : (s : Supervisor P) → IsPaced s → IsPaced (supervise p uniform s)
  unfolding supervise
  supervise-IsPaced s h = either s.looping
    where
      either :
          (b : Bool)
          → IsPaced (if b then connected p uniform s (p.connect s.collector.provider) else s)
      either true = connected-IsPaced s (p.connect s.collector.provider) h
      either false = h

  supervise_down :
      (k : ℕ) (s : Supervisor P)
      → IsDown p
      → s.looping ≡ true
      → s.backoff ≡ doubled k
      → ((supervise p uniform s).looping ≡ true)
        × ((supervise p uniform s).backoff ≡ doubled (k + 1))
        × ((supervise p uniform s).waits
            ≡ s.waits ++ (doubled k + uniform s.reconnects (doubled k / 4)) ∷ [])
        × ((supervise p uniform s).reconnects ≡ s.reconnects + 1)
        × ((supervise p uniform s).published ≡ s.published)
  unfolding supervise
  supervise_down k s down on e = of_answer (p.connect s.collector.provider) refl
    where
      of_answer :
          (r : P × Outcome (Unit {0}))
          → p.connect s.collector.provider ≡ r
          → ((supervise p uniform s).looping ≡ true)
            × ((supervise p uniform s).backoff ≡ doubled (k + 1))
            × ((supervise p uniform s).waits
                ≡ s.waits ++ (doubled k + uniform s.reconnects (doubled k / 4)) ∷ [])
            × ((supervise p uniform s).reconnects ≡ s.reconnects + 1)
            × ((supervise p uniform s).published ≡ s.published)
      of_answer (x, o) q =
          let refused : o ≡ raised os_error = ap (λ r. r.1) (sym q) ∙ down s.collector.provider in
          let end : supervise p uniform s ≡ disconnected p uniform (provided p uniform s x) =
            ap (λ b. if b then connected p uniform s (p.connect s.collector.provider) else s) on
            ∙ ap (connected p uniform s) q
            ∙ ap (λ y. connected p uniform s (x, y)) refused in
          (
            ap (λ t. t.looping) end ∙ on,
            ap (λ t. t.backoff) end
                ∙ ap (λ b. min 30000000 (b * 2)) e
                ∙ cap_double (2 ^ k) (2 ^ (k + 1)) (omega (arith, power_step k)),
            ap (λ t. t.waits) end ∙ ap (λ b. s.waits ++ (b + uniform s.reconnects (b / 4)) ∷ []) e,
            ap (λ t. t.reconnects) end,
            ap (λ t. t.published) end,
          )

  from_failure :
      (k n : ℕ) (s : Supervisor P)
      → IsDown p
      → s.looping ≡ true
      → s.backoff ≡ doubled k
      → ((supervise_all p uniform n s).looping ≡ true)
        × ((ws : List ℕ) × (length ws ≡ n)
            × IsDoubling k ws
            × ((supervise_all p uniform n s).waits ≡ s.waits ++ ws))
        × ((supervise_all p uniform n s).reconnects ≡ s.reconnects + n)
        × ((supervise_all p uniform n s).published ≡ s.published)
  unfolding supervise_all
  from_failure k zero s down on e =
      (on, ([], refl, tt, sym (append-nil s.waits)), omega arith, refl)
  from_failure k (suc n) s down on e =
      let (on', e', w, r, q) = supervise_down k s down on e in
      let (on'', (ws, l, d, w'), r', q') =
        from_failure (k + 1) n (supervise p uniform s) down on' e' in
      let jitter = uniform s.reconnects (doubled k / 4) in
      (
        on'',
        (
          (doubled k + jitter) ∷ ws,
          omega (arith, l),
          (omega arith, omega (arith, fair s.reconnects (doubled k / 4)), d),
          w' ∙ ap (λ x. x ++ ws) w ∙ append_assoc s.waits ((doubled k + jitter) ∷ []) ws,
        ),
        r' ∙ omega (arith, r),
        q' ∙ q,
      )

  -- Passes under a provider that refuses every connection with an OSError, with the back-off of half
  -- a second, where `random.uniform` answers at most its bound: each waits for half a second times
  -- the next power of two, or for thirty seconds if that is less, and for up to a quarter more; they
  -- count a reconnection each, publish nothing, and the loop goes on.
  pub supervise_all_down :
      (n : ℕ) (s : Supervisor P)
      → IsDown p
      → s.looping ≡ true
      → s.backoff ≡ 500000
      → ((supervise_all p uniform n s).looping ≡ true)
        × ((ws : List ℕ) × (length ws ≡ n)
            × IsDoubling 0 ws
            × ((supervise_all p uniform n s).waits ≡ s.waits ++ ws))
        × ((supervise_all p uniform n s).reconnects ≡ s.reconnects + n)
        × ((supervise_all p uniform n s).published ≡ s.published)
  supervise_all_down n s down on e = from_failure 0 n s down on e

  -- Whatever the provider answers: the bounds on the back-off and on the waits hold again after any
  -- number of passes.
  pub supervise_all-IsPaced :
      (n : ℕ) (s : Supervisor P) → IsPaced s → IsPaced (supervise_all p uniform n s)
  unfolding supervise_all
  supervise_all-IsPaced zero s h = h
  supervise_all-IsPaced (suc n) s h =
      supervise_all-IsPaced n (supervise p uniform s) (supervise-IsPaced s h)
