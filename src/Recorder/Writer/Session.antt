-- ===== src/Recorder/Writer/Session.antt =====
-- recorder.py: a writer's session, the opening of a file and any sequence of writes.
use smart_market_data_gatewa.Prelude.{
  ◌≡◌, ◌⊎◌, refl, ap, sym, subst, Bool, true, false, Option, some, List, [], ◌∷◌, arith, Bool-cases,
  inl, inr,
}
use smart_market_data_gatewa.Prelude.Outcome.{
  Outcome, Error, ok, raised, value_error, runtime_error, os_error,
}
use smart_market_data_gatewa.Recorder.Text.{Object, is_blank, is_digest}
use smart_market_data_gatewa.Recorder.Ledger.{
  Sha, Progress, LedgerFile, start, genesis_hash, verify_jsonl_ledger,
}
use smart_market_data_gatewa.Recorder.Writer.{
  Writer, chained, hashed, conflicting, created, enter, write,
}
use smart_market_data_gatewa.Recorder.Tamper.{verify_lines-head, bind-ok, ok-injective}
use smart_market_data_gatewa.Recorder.Writer.Chain.{
  IsLedger, stepped, grown, verify_jsonl_ledger-lines, grown-IsLedger,
}

-- A write with its outcome: a write that raises leaves the writer and the file.
abbrev pub settle :
    Writer × LedgerFile → Outcome (Writer × LedgerFile × Object) → Writer × LedgerFile
settle s (ok (w, file, o)) = (w, file)
settle s (raised e) = s

abbrev pub attempt : Sha → Writer × LedgerFile → Object × Bool → Writer × LedgerFile
attempt sha (w, file) (fields, appended) = settle (w, file) (write sha w file fields appended)

unfoldable pub attempts : Sha → Writer × LedgerFile → List (Object × Bool) → Writer × LedgerFile
attempts sha s [] = s
attempts sha s (a ∷ as_) = attempts sha (attempt sha s a) as_

-- A write is refused, fails, or appends its record.
pub write_cases :
    (sha : Sha) (w : Writer) (file : LedgerFile) (fields : Object) (appended : Bool)
    → ((e : Error) × (write sha w file fields appended ≡ raised e))
      ⊎ (write sha w file fields appended
          ≡ ok (stepped sha w fields, grown sha w file fields, hashed sha (chained w fields)))
unfolding write
write_cases sha w file fields appended = elim (Bool-cases w.is_open) [
  | inr shut ↦ inl (runtime_error, ground arith)
  | inl o ↦ elim (Bool-cases (conflicting fields)) [
    | inl clash ↦ inl (value_error, ground arith)
    | inr free ↦ elim (Bool-cases appended) [
      | inl done ↦ inr (ground arith)
      | inr failed ↦ inl (os_error, ground arith)
    ]
  ]
]

pub attempt-IsLedger :
    (sha : Sha) (w : Writer) (file : LedgerFile) (fields : Object) (appended : Bool)
    → IsLedger sha w file
    → IsLedger sha
        (attempt sha (w, file) (fields, appended)).0
        (attempt sha (w, file) (fields, appended)).1
attempt-IsLedger sha w file fields appended l = elim (write_cases sha w file fields appended) [
  | inl (e, p) ↦ rw p l
  | inr p ↦ rw p (grown-IsLedger sha w file fields l)
]

-- After any writes, refused, failed or done, on a file that verifies and a writer at its end, the
-- file still verifies and the writer is at its end.
pub attempts-IsLedger :
    (sha : Sha) (w : Writer) (file : LedgerFile) (as_ : List (Object × Bool))
    → IsLedger sha w file
    → IsLedger sha (attempts sha (w, file) as_).0 (attempts sha (w, file) as_).1
unfolding attempts
attempts-IsLedger sha w file [] l = l
attempts-IsLedger sha w file ((fields, appended) ∷ as_) l =
    attempts-IsLedger sha (attempt sha (w, file) (fields, appended)).0
      (attempt sha (w, file) (fields, appended)).1 as_
      (attempt-IsLedger sha w file fields appended l)

-- The writer that an opening leaves.
abbrev opened : Writer → Progress → Writer
opened v p = record v {
  is_open = true;
  next_ledger_index = p.expected_index;
  previous_record_hash = p.expected_previous_hash;
}

opened-IsLedger :
    (sha : Sha) (v : Writer) (file : LedgerFile) (p : Progress)
    → is_blank v.session_id ≡ false
    → verify_jsonl_ledger sha false (some file) ≡ ok p
    → IsLedger sha (opened v p) file
unfolding genesis_hash is_digest
opened-IsLedger sha v file p b e = record {
  reached = p;
  verified = e;
  in_step = record {
    index = refl;
    head = refl;
    head_form =
        verify_lines-head sha start p file.lines refl (verify_jsonl_ledger-lines sha file p e);
    named = b;
  };
}

enter_lem :
    (sha : Sha) (v w : Writer) (present : Option LedgerFile) (file : LedgerFile)
    → enter sha v present ≡ ok (w, file)
    → (p : Progress) × (verify_jsonl_ledger sha false (some file) ≡ ok p) × (w ≡ opened v p)
unfolding enter
enter_lem sha v w present file h =
    let (p, e, k) =
      bind-ok (verify_jsonl_ledger sha false (some (created present))) _ (w, file) h in
    let s = ok-injective (opened v p, created present) (w, file) k in
    (
      p,
      subst (λ f. verify_jsonl_ledger sha false (some f) ≡ ok p) (ap (λ r. r.1) s) e,
      ap (λ r. r.0) (sym s),
    )

-- A writer whose session id is not blank and which opened a file, present before or not: the file
-- is one that the verifier accepts and ends where the writer stands, and so it stays after any
-- sequence of writes, refused, failed or done.
pub session-verifies :
    (sha : Sha) (v w : Writer) (present : Option LedgerFile) (file : LedgerFile)
    (as_ : List (Object × Bool))
    → is_blank v.session_id ≡ false
    → enter sha v present ≡ ok (w, file)
    → IsLedger sha (attempts sha (w, file) as_).0 (attempts sha (w, file) as_).1
session-verifies sha v w present file as_ b h =
    let (p, e, q) = enter_lem sha v w present file h in
    attempts-IsLedger sha w file as_
      (subst (λ u. IsLedger sha u file) (sym q) (opened-IsLedger sha v file p b e))
