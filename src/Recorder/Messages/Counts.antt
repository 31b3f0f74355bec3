-- ===== src/Recorder/Messages/Counts.antt =====
-- recorder.py: what `handle` counts, and what it leaves of the ledger.
use smart_market_data_gatewa.Prelude.{
  ℕ, ◌+◌, ◌-◌, ◌≡◌, ◌⊎◌, refl, Bool, true, false, leb, Option, none, some, arith, Bool-cases, inl,
  inr,
}
use smart_market_data_gatewa.Prelude.Dict.{get}
use smart_market_data_gatewa.Prelude.Outcome.{
  Outcome, Error, ok, raised, value_error, key_error, runtime_error, os_error, arithmetic_error,
  cancelled,
}
use smart_market_data_gatewa.Domain.Quote.{QuoteEvent, validate_market}
use smart_market_data_gatewa.Recorder.Text.{Object}
use smart_market_data_gatewa.Recorder.Ledger.{Sha, LedgerFile}
use smart_market_data_gatewa.Recorder.Writer.{Writer, write, conflicting, hashed, chained}
use smart_market_data_gatewa.Recorder.Writer.Chain.{IsLedger, grown-IsLedger, stepped, grown}
use smart_market_data_gatewa.Recorder.Writer.Session.{write_cases}
use smart_market_data_gatewa.Recorder.Messages.{
  Counters, MessageRecorder, Message, quote, snapshot, unreadable, other_type, no_quote, Metadata,
  SequenceMetadata, State, quote_from_message, tagged, counted, of_gap, sequence_metadata,
  metadata_of, numbered, recorded, sequenced, read, handle,
}

abbrev pub tally : Counters → ℕ
tally c = c.written + c.duplicates + c.malformed + c.dropped

abbrev pub is_other : Message → Bool
is_other other_type = true
is_other unreadable = false
is_other no_quote = false
is_other (quote q) = false
is_other (snapshot q stale) = false

-- A message more is accounted for.
pub record IsCounted (c d : Counters) : Type 0 where
  pub once : tally d ≡ tally c + 1
  pub same : d.received ≡ c.received

-- A number is either taken, and then to be written, or counted as a duplicate.
numbered_counts :
    (m : MessageRecorder) (symbol n : ℕ) (o : Option ℕ)
    → ((numbered m symbol n o).1 ≡ none) × IsCounted m.counters (numbered m symbol n o).0.counters
      ⊎ (g : SequenceMetadata) × ((numbered m symbol n o).1 ≡ some g)
        × (tally (numbered m symbol n o).0.counters ≡ tally m.counters)
        × ((numbered m symbol n o).0.counters.received ≡ m.counters.received)
numbered_counts m symbol n none = inr (of_gap 0, refl, refl, refl)
numbered_counts m symbol n (some p) = elim (Bool-cases (leb n p)) [
  | inl old ↦ inl (rw old refl, record { once = rw old (omega arith); same = rw old refl })
  | inr new ↦ inr (of_gap (n - p - 1), rw new refl, rw new refl, rw new refl)
]

metadata_counts :
    (m : MessageRecorder) (symbol : ℕ) (sequence : Option ℕ)
    → ((metadata_of m symbol sequence).1 ≡ none)
        × IsCounted m.counters (metadata_of m symbol sequence).0.counters
      ⊎ (g : SequenceMetadata) × ((metadata_of m symbol sequence).1 ≡ some g)
        × (tally (metadata_of m symbol sequence).0.counters ≡ tally m.counters)
        × ((metadata_of m symbol sequence).0.counters.received ≡ m.counters.received)
metadata_counts m symbol none = inr (of_gap 0, refl, refl, refl)
metadata_counts m symbol (some n) = numbered_counts m symbol n (get m.last_sequence symbol)

module _ (sha : Sha) (dump : QuoteEvent → Metadata → SequenceMetadata → Object) where
  -- The ledger of a state.
  abbrev pub HasLedger : State → Type 0
  HasLedger s = IsLedger sha s.writer s.file

  recorded-HasLedger :
      (s : State) (o : Object) (appended : Bool)
      → HasLedger s
      → HasLedger (recorded s (write sha s.writer s.file o appended)).0
  recorded-HasLedger s o appended l = elim (write_cases sha s.writer s.file o appended) [
    | inl (e, p) ↦ rw p (failed e)
    | inr p ↦ rw p (grown-IsLedger sha s.writer s.file o l)
  ]
    where
      failed : (e : Error) → HasLedger (recorded s (raised e)).0
      failed value_error = l
      failed key_error = l
      failed runtime_error = l
      failed os_error = l
      failed arithmetic_error = l
      failed cancelled = l

  sequenced-HasLedger :
      (s : State) (q : QuoteEvent) (md : Metadata) (appended : Bool)
      (r : MessageRecorder × Option SequenceMetadata)
      → HasLedger s
      → HasLedger (sequenced sha dump s q md appended r).0
  sequenced-HasLedger s q md appended (m, none) l = l
  sequenced-HasLedger s q md appended (m, some g) l =
      recorded-HasLedger (record s { recorder = m }) (dump q md g) appended l

  read-HasLedger :
      (s : State) (appended : Bool) (r : Outcome (Option (QuoteEvent × Metadata)))
      → HasLedger s
      → HasLedger (read sha dump s appended r).0
  read-HasLedger s appended (raised e) l = l
  read-HasLedger s appended (ok none) l = l
  read-HasLedger s appended (ok (some (q, md))) l =
      sequenced-HasLedger s q md appended (sequence_metadata s.recorder q) l

  -- If the file verifies and ends where the writer stands, then it does so after any message too,
  -- whatever the message is and whether or not its record could be appended.
  pub handle-HasLedger :
      (s : State) (m : Message) (appended : Bool)
      → HasLedger s
      → HasLedger (handle sha dump s m appended).0
  unfolding handle
  handle-HasLedger s m appended l = read-HasLedger _ appended (quote_from_message m) l

  write_ok :
      (w : Writer) (file : LedgerFile) (o : Object) (appended : Bool)
      → w.is_open ≡ true
      → conflicting o ≡ false
      → ((x : Writer × LedgerFile × Object) × (write sha w file o appended ≡ ok x))
        ⊎ (write sha w file o appended ≡ raised os_error)
  unfolding write
  write_ok w file o true p c =
      inl ((stepped sha w o, grown sha w file o, hashed sha (chained w o)), rw (p, c) refl)
  write_ok w file o false p c = inr (rw (p, c) refl)

  written_counts :
      (s : State) (o : Object) (appended : Bool)
      → s.writer.is_open ≡ true
      → conflicting o ≡ false
      → IsCounted s.recorder.counters
          (recorded s (write sha s.writer s.file o appended)).0.recorder.counters
  written_counts s o appended p c = elim (write_ok s.writer s.file o appended p c) [
    | inl ((w, f, x), e) ↦ rw e (record { once = omega arith; same = refl })
    | inr e ↦ rw e (record { once = omega arith; same = refl })
  ]

  sequenced_counts :
      (s : State) (q : QuoteEvent) (md : Metadata) (appended : Bool)
      → s.writer.is_open ≡ true
      → ((g : SequenceMetadata) → conflicting (dump q md g) ≡ false)
      → IsCounted s.recorder.counters
          (sequenced sha dump s q md appended (sequence_metadata s.recorder q)).0.recorder.counters
  unfolding sequence_metadata
  sequenced_counts s q md appended p c =
      go (metadata_of s.recorder q.symbol q.sequence)
        (metadata_counts s.recorder q.symbol q.sequence)
    where
      go :
          (r : MessageRecorder × Option SequenceMetadata)
          → ((r.1 ≡ none) × IsCounted s.recorder.counters r.0.counters
              ⊎ (g : SequenceMetadata) × (r.1 ≡ some g)
                × (tally r.0.counters ≡ tally s.recorder.counters)
                × (r.0.counters.received ≡ s.recorder.counters.received))
          → IsCounted s.recorder.counters (sequenced sha dump s q md appended r).0.recorder.counters
      go (m, none) (inl (e, h)) = h
      go (m, none) (inr (g, e, t, r)) = absurd cc
      go (m, some g) (inl (e, h)) = absurd cc
      go (m, some g) (inr (g', e, t, r)) =
          let w = written_counts (record s { recorder = m }) (dump q md g) appended p (c g) in
          record { once = omega (arith, w.once, t); same = omega (arith, w.same, r) }

  -- The state once the message is counted as received.
  abbrev begun : State → State
  begun s = counted s (record s.recorder.counters { received = s.recorder.counters.received + 1 })

  tagged_counts :
      (s : State) (md : Metadata) (appended : Bool) (r : Outcome QuoteEvent)
      → s.writer.is_open ≡ true
      → ((q : QuoteEvent) (md : Metadata) (g : SequenceMetadata)
          → conflicting (dump q md g) ≡ false)
      → IsCounted s.recorder.counters (read sha dump s appended (tagged md r)).0.recorder.counters
  tagged_counts s md appended (raised e) p c = record { once = omega arith; same = refl }
  tagged_counts s md appended (ok q) p c = sequenced_counts s q md appended p (c q md)

  -- With an open writer, and a dump that takes no field of the ledger, every message but those of
  -- other types is received and then counted exactly once, as written, duplicate, malformed or
  -- dropped.
  pub handle-IsCounted :
      (s : State) (m : Message) (appended : Bool)
      → s.writer.is_open ≡ true
      → ((q : QuoteEvent) (md : Metadata) (g : SequenceMetadata)
          → conflicting (dump q md g) ≡ false)
      → is_other m ≡ false
      → (tally (handle sha dump s m appended).0.recorder.counters ≡ tally s.recorder.counters + 1)
        × ((handle sha dump s m appended).0.recorder.counters.received
            ≡ s.recorder.counters.received + 1)
  unfolding handle quote_from_message
  handle-IsCounted s unreadable appended p c o = (omega arith, refl)
  handle-IsCounted s no_quote appended p c o = (omega arith, refl)
  handle-IsCounted s other_type appended p c o = absurd cc
  handle-IsCounted s (quote q) appended p c o =
      let h =
        tagged_counts (begun s) (record { from_snapshot = false; stale = false }) appended
          (validate_market q) p c in
      (h.once, h.same)
  handle-IsCounted s (snapshot q stale) appended p c o =
      let h =
        tagged_counts (begun s) (record { from_snapshot = true; stale = stale }) appended
          (validate_market q) p c in
      (h.once, h.same)
