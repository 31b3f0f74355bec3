-- ===== src/Recorder/Writer/Chain.antt =====
-- What the writer appends, the verifier accepts.
use smart_market_data_gatewa.Prelude.{
  ℕ, ◌+◌, ◌≡◌, ◌∙◌, refl, ap, subst, true, false, not, ◌==◌, some, List, [], ◌∷◌, ◌++◌, arith,
  Bool-cases, inl, inr, ==_refl,
}
use mathlib.Core.Path.{fun_ext}
use smart_market_data_gatewa.Prelude.Outcome.{Outcome, ok, raised, value_error, ◌>>=◌}
use smart_market_data_gatewa.Recorder.Text.{
  Value, text, Object, is_blank, is_digest, text_eq_refl, set, pop, insert_text,
}
use smart_market_data_gatewa.Recorder.Ledger
use smart_market_data_gatewa.Recorder.Ledger.{
  Sha, Line, object, Progress, LedgerFile, verify_line, verify_lines, check_constants,
  require_object, require_session, require_hash, compute_record_hash, start, genesis_hash,
  verify_jsonl_ledger, verify_existing,
}
use smart_market_data_gatewa.Recorder.Writer.{Writer, chained, hashed}
use smart_market_data_gatewa.Recorder.Tamper.{refuse_if-ok}

-- Popping the hash undoes setting it.
pop-set : (o : Object) (f : ℕ) (v : Value) → pop (set o f v) f ≡ pop o f
pop-set o f v = fun_ext λ g. elim (Bool-cases (f == g)) [ inl e ↦ rw e refl | inr n ↦ rw n refl ]

hash-hashed :
    (sha : Sha) (o : Object) → compute_record_hash sha (hashed sha o) ≡ compute_record_hash sha o
hash-hashed sha o = ap sha.digest (pop-set o Ledger.record_hash (text (compute_record_hash sha o)))

check_constants-chained :
    (sha : Sha) (w : Writer) (fields : Object)
    → check_constants (hashed sha (chained w fields)) w.next_ledger_index ≡ ok tt
unfolding check_constants chained
check_constants-chained sha w fields = ground (arith, ==_refl w.next_ledger_index)

-- The progress of the verifier past the record.
abbrev past : Sha → Writer → Object → Progress → Progress
past sha w fields p = record {
  expected_previous_hash = compute_record_hash sha (chained w fields);
  expected_index = w.next_ledger_index + 1;
  session_ids = insert_text w.session_id p.session_ids;
}

-- The writer stands where the verifier stands.
pub record InStep (w : Writer) (p : Progress) : Type 0 where
  pub index : p.expected_index ≡ w.next_ledger_index
  pub head : p.expected_previous_hash ≡ w.previous_record_hash
  pub head_form : is_digest w.previous_record_hash ≡ true
  pub named : is_blank w.session_id ≡ false

verify_line-chained :
    (sha : Sha) (w : Writer) (fields : Object) (p : Progress)
    → InStep w p
    → verify_line sha p (object (hashed sha (chained w fields))) ≡ ok (past sha w fields p)
unfolding verify_line require_object require_session require_hash chained
verify_line-chained sha w fields p s = ground (
  arith,
  s.index,
  s.head,
  s.head_form,
  s.named,
  check_constants-chained sha w fields,
  hash-hashed sha (chained w fields),
  text_eq_refl w.previous_record_hash,
  text_eq_refl (compute_record_hash sha (chained w fields)),
  sha.digest_form (pop (chained w fields) Ledger.record_hash),
)

verify_lines-append :
    (sha : Sha) (p : Progress) (xs ys : List Line)
    → verify_lines sha p (xs ++ ys) ≡ (verify_lines sha p xs >>= λ q. verify_lines sha q ys)
unfolding verify_lines
verify_lines-append sha p [] ys = refl
verify_lines-append sha p (x ∷ xs) ys =
    after (verify_line sha p x) (λ next. verify_lines-append sha next xs ys)
  where
    after :
        (r : Outcome Progress)
        → ((next : Progress)
            → verify_lines sha next (xs ++ ys)
              ≡ (verify_lines sha next xs >>= λ q. verify_lines sha q ys))
        → (r >>= λ next. verify_lines sha next (xs ++ ys))
          ≡ ((r >>= λ next. verify_lines sha next xs) >>= λ q. verify_lines sha q ys)
    after (ok next) h = h next
    after (raised e) h = refl

-- The file verifies, and the writer stands at its end.
pub record IsLedger (sha : Sha) (w : Writer) (file : LedgerFile) : Type 0 where
  pub reached : Progress
  pub verified : verify_jsonl_ledger sha false (some file) ≡ ok reached
  pub in_step : InStep w reached

verify_existing-lines :
    (sha : Sha) (file : LedgerFile) (lines : List Line) (p : Progress)
    → file.lines ≡ lines
    → verify_existing sha file lines ≡ ok p
    → verify_lines sha start lines ≡ ok p
unfolding verify_lines
verify_existing-lines sha file [] p e h = h
verify_existing-lines sha file (x ∷ xs) p e h =
    subst (λ ls. verify_lines sha start ls ≡ ok p) e
      (refuse_if-ok (not file.terminated) value_error _ p h).1

pub verify_jsonl_ledger-lines :
    (sha : Sha) (file : LedgerFile) (p : Progress)
    → verify_jsonl_ledger sha false (some file) ≡ ok p
    → verify_lines sha start file.lines ≡ ok p
unfolding verify_jsonl_ledger
verify_jsonl_ledger-lines sha file p h = verify_existing-lines sha file file.lines p refl h

verify_existing-terminated :
    (sha : Sha) (file : LedgerFile) (lines : List Line)
    → file.lines ≡ lines
    → file.terminated ≡ true
    → verify_existing sha file lines ≡ verify_lines sha start lines
unfolding verify_lines
verify_existing-terminated sha file [] e t = refl
verify_existing-terminated sha file (x ∷ xs) e t = rw (t, e) refl

verify_jsonl_ledger-terminated :
    (sha : Sha) (file : LedgerFile)
    → file.terminated ≡ true
    → verify_jsonl_ledger sha false (some file) ≡ verify_lines sha start file.lines
unfolding verify_jsonl_ledger
verify_jsonl_ledger-terminated sha file t = verify_existing-terminated sha file file.lines refl t

-- What a successful write leaves.
abbrev pub stepped : Sha → Writer → Object → Writer
stepped sha w fields = record w {
  next_ledger_index = w.next_ledger_index + 1;
  previous_record_hash = compute_record_hash sha (chained w fields);
}

abbrev pub grown : Sha → Writer → LedgerFile → Object → LedgerFile
grown sha w file fields = record {
  lines = file.lines ++ object (hashed sha (chained w fields)) ∷ [];
  terminated = true;
}

verify_lines-grown :
    (sha : Sha) (w : Writer) (file : LedgerFile) (fields : Object) (l : IsLedger sha w file)
    → verify_lines sha start (grown sha w file fields).lines ≡ ok (past sha w fields l.reached)
verify_lines-grown sha w file fields l =
    verify_lines-append sha start file.lines (object (hashed sha (chained w fields)) ∷ [])
    ∙ rw (verify_jsonl_ledger-lines sha file l.reached l.verified)
        (unfold verify_lines in rw (verify_line-chained sha w fields l.reached l.in_step) refl)

pub grown-IsLedger :
    (sha : Sha) (w : Writer) (file : LedgerFile) (fields : Object)
    → IsLedger sha w file
    → IsLedger sha (stepped sha w fields) (grown sha w file fields)
grown-IsLedger sha w file fields l = record {
  reached = past sha w fields l.reached;
  verified =
      verify_jsonl_ledger-terminated sha (grown sha w file fields) refl
      ∙ verify_lines-grown sha w file fields l;
  in_step = record {
    index = refl;
    head = refl;
    head_form = sha.digest_form (pop (chained w fields) Ledger.record_hash);
    named = l.in_step.named;
  };
}
