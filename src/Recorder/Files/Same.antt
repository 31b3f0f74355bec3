-- ===== src/Recorder/Files/Same.antt =====
-- recorder.py: what the count and the head hash of an accepted file say of its records.
use smart_market_data_gatewa.Prelude.{
  ◌≡◌, ◌∙◌, sym, refl, ap, Bool, not, some, List, [], ◌∷◌, map, arith, length,
}
use smart_market_data_gatewa.Prelude.Outcome.{ok, value_error}
use smart_market_data_gatewa.Recorder.Ledger.{
  Sha, Line, Progress, LedgerFile, start, verify_lines, verify_jsonl_ledger, verify_existing,
}
use smart_market_data_gatewa.Recorder.Tamper.{NoCollision, refuse_if-ok, verify_lines-injective}
use smart_market_data_gatewa.Recorder.Files.{Bytes, raw_lines, records, verify_file}

accepted-verify_lines :
    (sha : Sha) (file : LedgerFile) (lines : List Line) (p : Progress)
    → file.lines ≡ lines
    → verify_existing sha file lines ≡ ok p
    → verify_lines sha start lines ≡ ok p
unfolding verify_lines
accepted-verify_lines sha file [] p e h = h
accepted-verify_lines sha file (x ∷ xs) p e h =
    let (_, k) = refuse_if-ok (not file.terminated) value_error _ p h in
    ap (verify_lines sha start) (sym e) ∙ k

module _ (sha : Sha) (loads : Bytes → Line) where
  verify_file-verify_lines :
      (missing : Bool) (bytes : Bytes) (p : Progress)
      → verify_file loads sha missing (some bytes) ≡ ok p
      → verify_lines sha start (records loads bytes) ≡ ok p
  unfolding verify_file verify_jsonl_ledger
  verify_file-verify_lines missing bytes p h = accepted-verify_lines sha _ _ p refl h

  length-records : (bytes : Bytes) → length (records loads bytes) ≡ length (raw_lines bytes)
  unfolding records
  length-records bytes = length-map (raw_lines bytes)
    where
      length-map : (xs : List Bytes) → length (map loads xs) ≡ length xs
      length-map [] = refl
      length-map (x ∷ xs) = omega (arith, length-map xs)

  -- Two files that the verifier accepts with the same count and the same head hash, no two of whose
  -- records at the same place collide, have the same number of lines, and `json.loads` reads the same
  -- records in them.
  pub verify_file-records :
      (missing missing' : Bool) (p q : Progress) (a b : Bytes)
      → NoCollision sha (records loads a) (records loads b)
      → verify_file loads sha missing (some a) ≡ ok p
      → verify_file loads sha missing' (some b) ≡ ok q
      → p.expected_index ≡ q.expected_index
      → p.expected_previous_hash ≡ q.expected_previous_hash
      → (records loads a ≡ records loads b) × (length (raw_lines a) ≡ length (raw_lines b))
  verify_file-records missing missing' p q a b c h k i e =
      let u = verify_file-verify_lines missing a p h in
      let v = verify_file-verify_lines missing' b q k in
      let same = verify_lines-injective sha p q (records loads a) (records loads b) c u v i e in
      (same, sym (length-records a) ∙ ap length same ∙ length-records b)
