-- ===== src/Recorder/Tamper.antt =====
-- recorder.py: what an accepted line says of itself, and what the head hash of an accepted file says
-- of all its records.
use smart_market_data_gatewa.Prelude.{
  ℕ, ◌+◌, ◌≡◌, ◌∙◌, sym, subst, refl, ap, Bool, true, false, not, ◌==◌, Option, none, some, List,
  [], ◌∷◌, arith, length, Bool-cases, inl, inr, ==_iff,
}
use mathlib.Core.Path.{fun_ext}
use smart_market_data_gatewa.Prelude.Outcome.{
  Outcome, Error, ok, raised, value_error, refuse_if, ◌>>=◌, ◌>>◌,
}
use smart_market_data_gatewa.Recorder.Text.{
  Text, Value, text, num, real, negative_zero, truth, other, Object, is_digest, text_eq, text_eq→eq,
  pop, insert_text,
}
use smart_market_data_gatewa.Recorder.Ledger
use smart_market_data_gatewa.Recorder.Ledger.{
  Sha, Line, broken, scalar, object, Progress, verify_line, verify_lines, check_constants,
  require_object, require_session, require_hash, compute_record_hash, start,
}

pub bind-ok {ℓ κ} :
    {A : Type ℓ} {B : Type κ} (m : Outcome A) (f : A → Outcome B) (b : B)
    → (m >>= f) ≡ ok b
    → (a : A) × (m ≡ ok a) × (f a ≡ ok b)
bind-ok (ok a) f b h = (a, refl, h)
bind-ok (raised e) f b h = absurd cc

pub refuse_if-ok {ℓ} :
    {B : Type ℓ} (c : Bool) (e : Error) (k : Outcome B) (b : B)
    → (refuse_if c e >> k) ≡ ok b
    → (c ≡ false) × (k ≡ ok b)
refuse_if-ok true e k b h = absurd cc
refuse_if-ok false e k b h = (refl, h)

require_hash-ok :
    (v : Option Value) (s : Text)
    → require_hash v ≡ ok s
    → (v ≡ some (text s)) × (is_digest s ≡ true)
unfolding require_hash
require_hash-ok none s h = absurd cc
require_hash-ok (some (num n)) s h = absurd cc
require_hash-ok (some (real n)) s h = absurd cc
require_hash-ok (some negative_zero) s h = absurd cc
require_hash-ok (some (truth b)) s h = absurd cc
require_hash-ok (some (other n)) s h = absurd cc
require_hash-ok (some (text t)) s h =
    let (c, k) = refuse_if-ok (not (is_digest t)) value_error (ok t) s h in
    (ground arith, ground arith)

require_object-ok : (l : Line) (o : Object) → require_object l ≡ ok o → l ≡ object o
unfolding require_object
require_object-ok broken o h = absurd cc
require_object-ok scalar o h = absurd cc
require_object-ok (object a) o h = cc

-- What an accepted line is.
pub record Accepted (sha : Sha) (p : Progress) (line : Line) (next : Progress) : Type 0 where
  pub payload : Object
  pub is_payload : line ≡ object payload
  pub linked : payload Ledger.previous_record_hash ≡ some (text p.expected_previous_hash)
  pub stored : payload Ledger.record_hash ≡ some (text next.expected_previous_hash)
  pub recomputed : next.expected_previous_hash ≡ compute_record_hash sha payload
  pub head_form : is_digest next.expected_previous_hash ≡ true
  pub counted : next.expected_index ≡ p.expected_index + 1

pub ok-injective {ℓ} : {A : Type ℓ} (a b : A) → ok a ≡ ok b → a ≡ b
ok-injective a b h = cc

next_of : Text → Text → Progress → Progress
next_of own session_id p = record {
  expected_previous_hash = own;
  expected_index = p.expected_index + 1;
  session_ids = insert_text session_id p.session_ids;
}

verify_line-Accepted-at :
    (sha : Sha) (p : Progress) (line : Line) (o : Object) (s prev own : Text)
    → line ≡ object o
    → o Ledger.previous_record_hash ≡ some (text prev)
    → text_eq prev p.expected_previous_hash ≡ true
    → (o Ledger.record_hash ≡ some (text own)) × (is_digest own ≡ true)
    → text_eq own (compute_record_hash sha o) ≡ true
    → Accepted sha p line (next_of own s p)
unfolding next_of
verify_line-Accepted-at sha p line o s prev own l linked e5 (stored, form) e7 = record {
  payload = o;
  is_payload = l;
  linked = linked ∙ ap (λ t. some (text t)) (text_eq→eq prev p.expected_previous_hash e5);
  stored = stored;
  recomputed = text_eq→eq own (compute_record_hash sha o) e7;
  head_form = form;
  counted = refl;
}

not-false : (b : Bool) → not b ≡ false → b ≡ true
not-false b h = ground arith

pub verify_line-Accepted :
    (sha : Sha) (p : Progress) (line : Line) (next : Progress)
    → verify_line sha p line ≡ ok next
    → Accepted sha p line next
unfolding verify_line next_of
verify_line-Accepted sha p line next h =
    let (o, e1, h1) = bind-ok (require_object line) _ next h in
    let (_, e2, h2) = bind-ok (check_constants o p.expected_index) _ next h1 in
    let (s, e3, h3) = bind-ok (require_session (o Ledger.recorder_session_id)) _ next h2 in
    let (prev, e4, h4) = bind-ok (require_hash (o Ledger.previous_record_hash)) _ next h3 in
    let (e5, h5) =
      refuse_if-ok (not (text_eq prev p.expected_previous_hash)) value_error _ next h4 in
    let (own, e6, h6) = bind-ok (require_hash (o Ledger.record_hash)) _ next h5 in
    let (e7, h7) =
      refuse_if-ok (not (text_eq own (compute_record_hash sha o))) value_error _ next h6 in
    subst (Accepted sha p line) (ok-injective _ next h7) (
      verify_line-Accepted-at sha p line o s prev own (require_object-ok line o e1)
        (require_hash-ok _ prev e4).0 (not-false _ e5) (require_hash-ok _ own e6) (not-false _ e7))

-- No two records at the same place of two files have the same digest and differ.
unfoldable pub NoCollision : Sha → List Line → List Line → Type 0
NoCollision sha [] ys = Unit
NoCollision sha (x ∷ xs) [] = Unit
NoCollision sha (x ∷ xs) (y ∷ ys) =
    (((a b : Object)
        → x ≡ object a
        → y ≡ object b
        → compute_record_hash sha a ≡ compute_record_hash sha b
        → pop a Ledger.record_hash ≡ pop b Ledger.record_hash)
      × NoCollision sha xs ys)

verify_lines-index :
    (sha : Sha) (p q : Progress) (xs : List Line)
    → verify_lines sha p xs ≡ ok q
    → q.expected_index ≡ p.expected_index + length xs
unfolding verify_lines
verify_lines-index sha p q [] h = omega (arith, ap (λ r. r.expected_index) (ok-injective p q h))
verify_lines-index sha p q (x ∷ xs) h =
    let (next, e, k) = bind-ok (verify_line sha p x) _ q h in
    let a = verify_line-Accepted sha p x next e in
    let rest = verify_lines-index sha next q xs k in omega (arith, a.counted, rest)

-- A record is its body and its own hash.
restored :
    (a b : Object) (s t : Text)
    → pop a Ledger.record_hash ≡ pop b Ledger.record_hash
    → a Ledger.record_hash ≡ some (text s)
    → b Ledger.record_hash ≡ some (text t)
    → s ≡ t
    → a ≡ b
restored a b s t e p q st =
    fun_ext λ f. elim (Bool-cases (Ledger.record_hash == f)) [
      | inl h ↦ cong_at f h
      | inr n ↦ cong_off f n
    ]
  where
    cong_at : (f : ℕ) → (Ledger.record_hash == f) ≡ true → a f ≡ b f
    cong_at f h =
        subst (λ g. a g ≡ b g) ((==_iff Ledger.record_hash f).0 h)
          (p ∙ ap (λ u. some (text u)) st ∙ sym q)

    kept :
        (o : Object) (f : ℕ) → (Ledger.record_hash == f) ≡ false → pop o Ledger.record_hash f ≡ o f
    kept o f n = rw n refl

    cong_off : (f : ℕ) → (Ledger.record_hash == f) ≡ false → a f ≡ b f
    cong_off f n = sym (kept a f n) ∙ ap (λ o. o f) e ∙ kept b f n

text_injective : (s t : Text) → some (text s) ≡ some (text t) → s ≡ t
text_injective s t h = cc

cons_eq : {x y : Line} {xs ys : List Line} → x ≡ y → xs ≡ ys → (x ∷ xs) ≡ (y ∷ ys)
cons_eq p q = cc

same_lines :
    (sha : Sha) (p q p' q' : Progress) (xs ys : List Line)
    → NoCollision sha xs ys
    → verify_lines sha p xs ≡ ok p'
    → verify_lines sha q ys ≡ ok q'
    → p.expected_index ≡ q.expected_index
    → p'.expected_index ≡ q'.expected_index
    → p'.expected_previous_hash ≡ q'.expected_previous_hash
    → (p.expected_previous_hash ≡ q.expected_previous_hash) × (xs ≡ ys)
unfolding verify_lines NoCollision
same_lines sha p q p' q' [] [] c h k i j e =
    let u = ap (λ r. r.expected_previous_hash) (ok-injective p p' h) in
    let v = ap (λ r. r.expected_previous_hash) (ok-injective q q' k) in (u ∙ e ∙ sym v, refl)
same_lines sha p q p' q' [] (y ∷ ys) c h k i j e =
    let u = verify_lines-index sha p p' [] h in
    let v = verify_lines-index sha q q' (y ∷ ys) k in absurd (omega arith)
same_lines sha p q p' q' (x ∷ xs) [] c h k i j e =
    let u = verify_lines-index sha p p' (x ∷ xs) h in
    let v = verify_lines-index sha q q' [] k in absurd (omega arith)
same_lines sha p q p' q' (x ∷ xs) (y ∷ ys) (c, cs) h k i j e =
    let (n, hx, hs) = bind-ok (verify_line sha p x) _ p' h in
    let (m, ky, ks) = bind-ok (verify_line sha q y) _ q' k in
    let a = verify_line-Accepted sha p x n hx in
    let b = verify_line-Accepted sha q y m ky in
    let (heads, tails) =
      same_lines sha n m p' q' xs ys cs hs ks (omega (arith, a.counted, b.counted)) j e in
    let bodies =
      restored a.payload b.payload n.expected_previous_hash m.expected_previous_hash
        (c a.payload b.payload a.is_payload b.is_payload (sym a.recomputed ∙ heads ∙ b.recomputed))
        a.stored b.stored heads in
    (
      text_injective _ _ (sym a.linked ∙ ap (λ o. o Ledger.previous_record_hash) bodies ∙ b.linked),
      cons_eq (a.is_payload ∙ ap object bodies ∙ sym b.is_payload) tails,
    )

-- Parsed lines that the verifier accepts to the same count and the same head hash, no two of which
-- at the same place collide, are the same.
pub verify_lines-injective :
    (sha : Sha) (p q : Progress) (xs ys : List Line)
    → NoCollision sha xs ys
    → verify_lines sha start xs ≡ ok p
    → verify_lines sha start ys ≡ ok q
    → p.expected_index ≡ q.expected_index
    → p.expected_previous_hash ≡ q.expected_previous_hash
    → xs ≡ ys
verify_lines-injective sha p q xs ys c h k i e =
    (same_lines sha start start p q xs ys c h k refl i e).1

-- The head hash of accepted lines has the form of a digest.
pub verify_lines-head :
    (sha : Sha) (p q : Progress) (xs : List Line)
    → is_digest p.expected_previous_hash ≡ true
    → verify_lines sha p xs ≡ ok q
    → is_digest q.expected_previous_hash ≡ true
unfolding verify_lines
verify_lines-head sha p q [] d h =
    ap is_digest (sym (ap (λ r. r.expected_previous_hash) (ok-injective p q h))) ∙ d
verify_lines-head sha p q (x ∷ xs) d h =
    let (next, e, k) = bind-ok (verify_line sha p x) _ q h in
    verify_lines-head sha next q xs (verify_line-Accepted sha p x next e).head_form k
