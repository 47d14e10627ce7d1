-- ===== src/Tokeniser/Lexemes/Numbers.antt =====
-- ReadNumber of tokeniser/tokeniser.go reads what the spelling of numbers allows.
mod Digits
unfoldable pub use Digits.*
use qk.Prelude.{
  ℕ, suc, ◌+◌, ◌-◌, ◌≤◌, ◌<◌, ◌≡◌, refl, sym, ◌⊎◌, inl, inr, true, false, ◌||◌, Option, none, some,
  List, [], ◌∷◌, ◌++◌, ◌==◌, ltb, length, arith, Bool-cases,
}
use mathlib.Core.List.{append_assoc}
use mathlib.Core.Path.{subst}
use qk.Tokeniser.Token.{Token}
use qk.Tokeniser.Cursor.{Tokeniser, code_at, inc, is_alpha, is_num}
use qk.Tokeniser.Read.{ok, ◌>>=◌, remaining, read_while}
use qk.Tokeniser.Number.{
  digit_value, number_prefix, prefix_base, read_digits, dot_digit, finish_fraction, read_fraction,
  finish_number, read_unsigned, read_number,
}
use qk.Tokeniser.Place.{place, Reads, Reads-append, Reads-length, inc-place, lt-of_code_at}
use qk.Tokeniser.Lexemes.{All, Numeral, whole, fraction, prefixed}
use qk.Tokeniser.Lexemes.Words.{Gives, Gives-bind, Gives-map, Run, read_while-Run}

abbrev pub NumberRead : List ℕ → List Token → ℕ → List ℕ × ℕ × Tokeniser → Type 0
NumberRead text ts p r =
    (q : ℕ) × (s : List ℕ) × (r.2 ≡ place text ts q)
    × Reads text p s q
    × Numeral s r.1 r.0
    × ((is_alpha (code_at text q) || is_num (code_at text q)) ≡ false)
    × (p < q)
    × (q ≤ length text)

module _ (text : List ℕ) (ts : List Token) (p q c : ℕ) (s : List ℕ)
    (read : Reads text p (c ∷ s) q) where
  finish_fraction-reads :
      (f : List ℕ) (u : Tokeniser)
      → All is_num (c ∷ s)
      → code_at text q ≡ b'.'
      → Run text ts is_num (suc q) (f, u)
      → Gives (NumberRead text ts p) (finish_fraction ((c ∷ s) ++ code_at text q ∷ []) (f, u))
  unfolding finish_fraction
  finish_fraction-reads f u d dot (q', e, r, a, z, l) =
      rw e (elim (Bool-cases (is_alpha (code_at text q'))) [
        | inl k ↦ rw k tt
        | inr k ↦ rw k (
          q',
          (c ∷ s) ++ b'.' ∷ f,
          refl,
          Reads-append text p q q' (c ∷ s) _ read (dot, r),
          rw dot (rw (append_assoc s (b'.' ∷ []) f) (fraction c s f d a)),
          rw (k, z),
          omega (arith, Reads-length text p q (c ∷ s) read, Reads-length text (suc q) q' f r),
          l,
        )
      ])

  read_fraction-reads :
      All is_num (c ∷ s)
      → dot_digit (place text ts q) ≡ true
      → Gives (NumberRead text ts p) (read_fraction (c ∷ s) (place text ts q))
  unfolding read_fraction
  read_fraction-reads d h =
      let dot : code_at text q ≡ b'.' = ground arith in
      let within : q < length text = lt-of_code_at text q (ground arith) in
      subst
        (λ u.
          Gives (NumberRead text ts p)
            (finish_fraction ((c ∷ s) ++ code_at text q ∷ []) (read_while is_num (remaining u) u)))
        (sym (inc-place text ts q))
        (finish_fraction-reads _ _ d dot
          (read_while-Run text ts is_num refl (length text - suc q) (suc q) (omega arith) within))

-- What finish_number makes of digits that are there.
finish_number-Reads :
    (text : List ℕ) (ts : List Token) (o : Option ℕ) (p b q c : ℕ) (s : List ℕ)
    → PrefixRead text p o b
    → Reads text b (c ∷ s) q
    → All (λ d. ltb (digit_value d) (prefix_base o)) (c ∷ s)
    → (is_alpha (code_at text q) || is_num (code_at text q)) ≡ false
    → q ≤ length text
    → Gives (NumberRead text ts p) (finish_number o (c ∷ s) (place text ts q))
unfolding finish_number
finish_number-Reads text ts none p b q c s e r d z l =
    elim (Bool-cases (dot_digit (place text ts q))) [
      | inl k ↦ rw k (read_fraction-reads text ts p q c s (rw (← e) r) (All-is_num (c ∷ s) d) k)
      | inr k ↦ rw k (
          let r' : Reads text p (c ∷ s) q = rw (← e) r in
          (
            q,
            c ∷ s,
            refl,
            r',
            whole c s (All-is_num (c ∷ s) d),
            z,
            omega (arith, Reads-length text p q (c ∷ s) r'),
            l,
          ))
    ]
finish_number-Reads text ts (some base) p b q c s e r d z l =
    elim (Bool-cases (dot_digit (place text ts q))) [
      | inl k ↦ rw k tt
      | inr k ↦ rw k (
          let r' : Reads text p (b'0' ∷ e.0 ∷ c ∷ s) q =
            Reads-append text p b q (b'0' ∷ e.0 ∷ []) (c ∷ s) e.2 r in
          (
            q,
            b'0' ∷ e.0 ∷ c ∷ s,
            refl,
            r',
            prefixed e.0 base c s e.1 d,
            z,
            omega (arith, Reads-length text p q (b'0' ∷ e.0 ∷ c ∷ s) r'),
            l,
          ))
    ]

finish_digits :
    (text : List ℕ) (ts : List Token) (o : Option ℕ) (p b : ℕ) (r : List ℕ × Tokeniser)
    → PrefixRead text p o b
    → DigitsRead text ts (prefix_base o) b r
    → Gives (NumberRead text ts p) (finish_number o r.0 r.1)
unfolding finish_number
finish_digits text ts o p b ([], u) e d = tt
finish_digits text ts o p b (c ∷ s, u) e (q, moved, r, d, z, l) =
    rw moved (finish_number-Reads text ts o p b q c s e r d z l)

pub read_unsigned-reads :
    (text : List ℕ) (ts : List Token) (p : ℕ)
    → p ≤ length text
    → Gives (NumberRead text ts p) (read_unsigned (place text ts p))
unfolding read_unsigned
read_unsigned-reads text ts p h =
    let o = number_prefix (place text ts p) in
    let (b, e, moved) = number_prefix-reads text ts p in
    subst
      (λ u.
        Gives (NumberRead text ts p)
          (read_digits (prefix_base o) (remaining u) u >>= λ r. finish_number o r.0 r.1))
      (sym moved)
      (Gives-bind (DigitsRead text ts (prefix_base o) b) (NumberRead text ts p)
        (read_digits (prefix_base o) (length text - b) (place text ts b))
        (λ r. finish_number o r.0 r.1)
        (read_digits-reads text ts (prefix_base o) (length text - b) b (omega arith)
          (PrefixRead-within text p b o e h))
        (λ r d. finish_digits text ts o p b r e d))

-- A numeral, or one behind a minus sign.
abbrev pub SignedRead : List ℕ → List Token → ℕ → List ℕ × ℕ × Tokeniser → Type 0
SignedRead text ts p r =
    (q : ℕ) × (s : List ℕ) × (r.2 ≡ place text ts q)
    × Reads text p s q
    × (Numeral s r.1 r.0
        ⊎ (s' : List ℕ) × (v : List ℕ) × (s ≡ b'-' ∷ s') × (r.0 ≡ b'-' ∷ v) × Numeral s' r.1 v)
    × ((is_alpha (code_at text q) || is_num (code_at text q)) ≡ false)
    × (p < q)
    × (q ≤ length text)

pub read_number-reads :
    (text : List ℕ) (ts : List Token) (p : ℕ)
    → p ≤ length text
    → Gives (SignedRead text ts p) (read_number (place text ts p))
unfolding read_number
read_number-reads text ts p h = elim (Bool-cases (code_at text p == b'-')) [
  | inl k ↦
      let minus : code_at text p ≡ b'-' = ground arith in
      rw k (
        Gives-bind (NumberRead text ts (suc p)) (SignedRead text ts p)
          (read_unsigned (inc (place text ts p))) (λ r. ok (b'-' ∷ r.0, r.1, r.2))
          (subst (λ u. Gives (NumberRead text ts (suc p)) (read_unsigned u))
            (sym (inc-place text ts p))
            (read_unsigned-reads text ts (suc p) (lt-of_code_at text p (ground arith))))
          (λ r (q, s, e, d, n, z, o, l).
            (q, b'-' ∷ s, e, (minus, d), inr (s, r.0, refl, refl, n), z, omega arith, l)))
  | inr k ↦ rw k (
      Gives-map (NumberRead text ts p) (SignedRead text ts p) (read_unsigned (place text ts p))
        (λ r (q, s, e, d, n, z, o, l). (q, s, e, d, inl n, z, o, l))
        (read_unsigned-reads text ts p h))
]
