-- ===== src/Recorder/Writer/Append.antt =====
-- recorder.py: the loop of `os.write` calls in `AtomicJsonlWriter.write`, on the bytes of the file,
-- with its roll-back. What each call writes is a function of the round: `none` for an exception,
-- and a count of bytes, at most what is left, as the system call promises. Whether the `fsync` of
-- the bytes and the `ftruncate` of the roll-back succeed are arguments.
use smart_market_data_gatewa.Prelude.{
  ℕ, zero, suc, ◌<◌, ◌≡◌, ◌∙◌, ◌⊎◌, refl, ap, Bool, true, false, leb, Option, none, some, List, [],
  ◌∷◌, ◌++◌, arith, length, drop, Bool-cases, Option-cases, inl, inr, length-drop,
}
use mathlib.Core.List.{append-nil, append_assoc}

abbrev pub Bytes : Type 0
Bytes = List ℕ

-- The first n of a list.
pub take : ℕ → Bytes → Bytes
take zero xs = []
take (suc n) [] = []
take (suc n) (x ∷ xs) = x ∷ take n xs

-- What one call answers.
abbrev pub Calls : Type 0
Calls = ℕ → Option ℕ

-- The file when the loop ends, and whether it ended well: it fails on an exception and on a call
-- that wrote nothing.
append_loop : ℕ → Calls → ℕ → Bytes → Bytes → Bytes × Bool
append_loop zero calls round file remaining = (file, false)
append_loop (suc fuel) calls round file [] = (file, true)
append_loop (suc fuel) calls round file (b ∷ bs) = elim (calls round) [
  | none ↦ (file, false)
  | some written ↦ elim (leb written 0) [
    | true ↦ (file, false)
    | false ↦
        append_loop fuel calls (suc round) (file ++ take written (b ∷ bs)) (drop written (b ∷ bs))
  ]
]

-- The `except` clause: `os.ftruncate(fd, original_size)`, when it succeeds. When it raises, the file
-- keeps the bytes that were written.
restored : ℕ → Bool → Bytes → Bytes × Bool
restored original_size true file = (take original_size file, false)
restored original_size false file = (file, false)

-- The `try` statement: the loop, the `fsync`, and the roll-back on a failure.
rolled_back : ℕ → Bytes × Bool → Bool → Bool → Bytes × Bool
rolled_back original_size (file, true) true truncated = (file, true)
rolled_back original_size (file, true) false truncated = restored original_size truncated file
rolled_back original_size (file, false) synced truncated = restored original_size truncated file

-- A round for each byte, and one to see the end.
pub append : Calls → Bool → Bool → Bytes → Bytes → Bytes × Bool
append calls synced truncated file payload =
    rolled_back (length file) (append_loop (suc (length payload)) calls 0 file payload) synced
      truncated

take-drop : (n : ℕ) (xs : Bytes) → take n xs ++ drop n xs ≡ xs
unfolding take
take-drop zero xs = refl
take-drop (suc n) [] = refl
take-drop (suc n) (x ∷ xs) = ap (◌∷◌ x) (take-drop n xs)

take-append : (xs ys : Bytes) → take (length xs) (xs ++ ys) ≡ xs
unfolding take
take-append [] ys = refl
take-append (x ∷ xs) ys = ap (◌∷◌ x) (take-append xs ys)

-- The loop only ever adds a beginning of the payload, and all of it when it ends well.
append_loop_lem :
    (fuel : ℕ) (calls : Calls) (round : ℕ) (file remaining : Bytes)
    → length remaining < fuel
    → (added rest : Bytes) × ((append_loop fuel calls round file remaining).0 ≡ file ++ added)
      × (added ++ rest ≡ remaining)
      × ((append_loop fuel calls round file remaining).1 ≡ true → added ≡ remaining)
unfolding append_loop
append_loop_lem zero calls round file remaining h = absurd (omega arith)
append_loop_lem (suc fuel) calls round file [] h =
    ([], [], ground (arith, append-nil file), refl, λ e. refl)
append_loop_lem (suc fuel) calls round file (b ∷ bs) h = elim (Option-cases (calls round)) [
  | inl e ↦ ([], b ∷ bs, ground (arith, append-nil file), refl, λ k. ground arith)
  | inr (written, e) ↦ elim (Bool-cases (leb written 0)) [
    | inl z ↦ ([], b ∷ bs, ground (arith, append-nil file), refl, λ k. ground arith)
    | inr n ↦
        let (added, rest, p, r, q) =
          append_loop_lem fuel calls (suc round) (file ++ take written (b ∷ bs))
            (drop written (b ∷ bs)) (ground (arith, length-drop written (b ∷ bs))) in
        (
          take written (b ∷ bs) ++ added,
          rest,
          ground (arith, p, append_assoc file (take written (b ∷ bs)) added),
          append_assoc (take written (b ∷ bs)) added rest
              ∙ ap (λ xs. take written (b ∷ bs) ++ xs) r
              ∙ take-drop written (b ∷ bs),
          λ k. ground (arith, q, take-drop written (b ∷ bs)),
        )
  ]
]

-- The outcomes of an append to `file`: all of the payload, none of it when the roll-back succeeds,
-- and a beginning of it when that fails.
abbrev pub Appended : Bool → Bytes → Bytes → Bytes × Bool → Type 0
Appended truncated file payload r =
    (r ≡ (file ++ payload, true))
    ⊎ ((truncated ≡ true) × (r ≡ (file, false)))
    ⊎ ((truncated ≡ false)
        × ((added rest : Bytes) × (added ++ rest ≡ payload) × (r ≡ (file ++ added, false))))

restored_lem :
    (file payload added rest bytes : Bytes) (truncated : Bool)
    → bytes ≡ file ++ added
    → added ++ rest ≡ payload
    → Appended truncated file payload (restored (length file) truncated bytes)
unfolding restored
restored_lem file payload added rest bytes true p r = inr (
    inl (
      refl,
      ap (λ b. (take (length file) b, false)) p ∙ ap (λ b. (b, false)) (take-append file added),
    ))
restored_lem file payload added rest bytes false p r =
    inr (inr (refl, (added, rest, r, ap (λ b. (b, false)) p)))

rolled_back_lem :
    (file payload added rest : Bytes) (r : Bytes × Bool) (synced truncated : Bool)
    → r.0 ≡ file ++ added
    → added ++ rest ≡ payload
    → (r.1 ≡ true → added ≡ payload)
    → Appended truncated file payload (rolled_back (length file) r synced truncated)
unfolding rolled_back
rolled_back_lem file payload added rest (bytes, true) true truncated p r q =
    inl (rw (p, q refl) refl)
rolled_back_lem file payload added rest (bytes, true) false truncated p r q =
    restored_lem file payload added rest bytes truncated p r
rolled_back_lem file payload added rest (bytes, false) synced truncated p r q =
    restored_lem file payload added rest bytes truncated p r

-- Whatever the system calls answer: either the whole payload follows the old content, or the
-- failure is reported and the file has its old content if the roll-back succeeds, and its old
-- content followed by a beginning of the payload if it fails.
pub append_atomic :
    (calls : Calls) (synced truncated : Bool) (file payload : Bytes)
    → Appended truncated file payload (append calls synced truncated file payload)
unfolding append
append_atomic calls synced truncated file payload =
    let (added, rest, p, r, q) =
      append_loop_lem (suc (length payload)) calls 0 file payload (omega arith) in
    rolled_back_lem file payload added rest _ synced truncated p r q

append_loop_done :
    (fuel : ℕ) (calls : Calls) (round : ℕ) (file remaining : Bytes)
    → length remaining < fuel
    → ((r : ℕ) → (n : ℕ) × (calls r ≡ some (suc n)))
    → (append_loop fuel calls round file remaining).1 ≡ true
unfolding append_loop
append_loop_done zero calls round file remaining h g = absurd (omega arith)
append_loop_done (suc fuel) calls round file [] h g = refl
append_loop_done (suc fuel) calls round file (b ∷ bs) h g =
    let (n, e) = g round in
    let rest =
      append_loop_done fuel calls (suc round) (file ++ take (suc n) (b ∷ bs)) (drop n bs)
        (omega (arith, length-drop n bs)) g in
    ground (arith, e, rest)

-- If every call writes at least a byte and the sync succeeds, the payload is appended.
pub append_progress :
    (calls : Calls) (truncated : Bool) (file payload : Bytes)
    → ((r : ℕ) → (n : ℕ) × (calls r ≡ some (suc n)))
    → append calls true truncated file payload ≡ (file ++ payload, true)
unfolding append
append_progress calls truncated file payload g =
    let done = append_loop_done (suc (length payload)) calls 0 file payload (omega arith) g in
    let (added, rest, p, _, q) =
      append_loop_lem (suc (length payload)) calls 0 file payload (omega arith) in
    synced _ p done (q done)
  where
    synced :
        {added : Bytes} (r : Bytes × Bool)
        → r.0 ≡ file ++ added
        → r.1 ≡ true
        → added ≡ payload
        → rolled_back (length file) r true truncated ≡ (file ++ payload, true)
    synced (bytes, true) p d q = unfold rolled_back in rw (p, q) refl
    synced (bytes, false) p d q = cc
