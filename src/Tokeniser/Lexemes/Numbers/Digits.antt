-- ===== src/Tokeniser/Lexemes/Numbers/Digits.antt =====
-- The digits and the prefix of the numbers that ReadNumber of tokeniser/tokeniser.go reads.
use qk.Prelude.{
  ℕ, zero, suc, ◌+◌, ◌≤◌, ◌<◌, ◌≡◌, ◌≢◌, refl, sym, ap, ◌∙◌, inl, inr, true, false, ◌||◌, Option,
  none, some, List, [], ◌∷◌, ltb, leb, length, arith, Bool-cases, Option-cases,
}
use mathlib.Core.Path.{subst}
use qk.Tokeniser.Token.{Token}
use qk.Tokeniser.Cursor.{Tokeniser, code_at, peek, next, inc, incs, get_loc, is_alpha, is_num}
use qk.Tokeniser.Read.{◌>>=◌, ok, failed, invalid_digit}
use qk.Tokeniser.Number.{digit_value, number_prefix, prefix_width, may_be_digit, read_digits}
use qk.Tokeniser.Place.{place, Reads, inc-place, incs-place, lt-of_code_at, code_at-behind}
use qk.Tokeniser.Lexemes.{All, IsMarker}
use qk.Tokeniser.Lexemes.Words.{Gives, Gives-bind}

pub next-place :
    (text : List ℕ) (ts : List Token) (p : ℕ) → next (place text ts p) ≡ code_at text (suc p)
next-place text ts p = ap (code_at text) (omega arith)

pub is_num-of_digit_value : (c : ℕ) → ltb (digit_value c) 10 ≡ true → is_num c ≡ true
unfolding digit_value
is_num-of_digit_value c h = ground arith

pub All-is_num : (s : List ℕ) → All (λ d. ltb (digit_value d) 10) s → All is_num s
All-is_num [] h = tt
All-is_num (c ∷ s) h = (is_num-of_digit_value c h.0, All-is_num s h.1)

pub no_digit-behind : (c : ℕ) → may_be_digit c ≡ false → (is_alpha c || is_num c) ≡ false
no_digit-behind c h = ground arith

digit-ne-zero : (c : ℕ) → may_be_digit c ≡ true → c ≢ 0
digit-ne-zero c h = ground arith

not_below : (a b : ℕ) → leb b a ≡ false → ltb a b ≡ true
not_below a b h = ground arith

abbrev pub DigitsRead : List ℕ → List Token → ℕ → ℕ → List ℕ × Tokeniser → Type 0
DigitsRead text ts base p r =
    (q : ℕ) × (r.1 ≡ place text ts q)
    × Reads text p r.0 q
    × All (λ d. ltb (digit_value d) base) r.0
    × ((is_alpha (code_at text q) || is_num (code_at text q)) ≡ false)
    × (q ≤ length text)

pub read_digits-off :
    (base n : ℕ) (t : Tokeniser)
    → may_be_digit (peek t) ≡ false
    → read_digits base (suc n) t ≡ ok ([], t)
unfolding read_digits
read_digits-off base n t h = rw (h, read_digits)

pub read_digits-invalid :
    (base n : ℕ) (t : Tokeniser)
    → may_be_digit (peek t) ≡ true
    → leb base (digit_value (peek t)) ≡ true
    → read_digits base (suc n) t ≡ failed (get_loc t) (invalid_digit (peek t) base)
unfolding read_digits
read_digits-invalid base n t h k = rw (h, read_digits) (rw k)

pub read_digits-on :
    (base n : ℕ) (t : Tokeniser)
    → may_be_digit (peek t) ≡ true
    → leb base (digit_value (peek t)) ≡ false
    → read_digits base (suc n) t ≡ (do (s, u) ← read_digits base n (inc t); ok (peek t ∷ s, u))
unfolding read_digits
read_digits-on base n t h k = rw (h, read_digits) (rw k)

module _ (text : List ℕ) (ts : List Token) (base : ℕ) where
  pub read_digits-reads :
      (n p : ℕ)
      → length text ≤ n + p
      → p ≤ length text
      → Gives (DigitsRead text ts base p) (read_digits base n (place text ts p))
  unfolding read_digits
  read_digits-reads zero p h b =
      (p, refl, refl, tt, rw (code_at-behind text p (omega arith)) refl, b)
  read_digits-reads (suc n) p h b = elim (Bool-cases (may_be_digit (code_at text p))) [
    | inl m ↦ elim (Bool-cases (leb base (digit_value (code_at text p)))) [
      | inl k ↦ rw (read_digits-invalid base n (place text ts p) m k) tt
      | inr k ↦ rw (read_digits-on base n (place text ts p) m k) (
          rw (inc-place text ts p) (
            Gives-bind (DigitsRead text ts base (suc p)) (DigitsRead text ts base p)
              (read_digits base n (place text ts (suc p))) (λ b. ok (code_at text p ∷ b.0, b.1))
              (read_digits-reads n (suc p) (omega arith)
                (lt-of_code_at text p (digit-ne-zero (code_at text p) m)))
              (λ a (q, e, r, d, z, l).
                (q, e, (refl, r), (not_below (digit_value (code_at text p)) base k, d), z, l))))
    ]
    | inr m ↦
        rw (read_digits-off base n (place text ts p) m)
          (p, refl, refl, tt, no_digit-behind (code_at text p) m, b)
  ]

-- What the prefix of a number says, and where its digits begin.
abbrev pub PrefixRead : List ℕ → ℕ → Option ℕ → ℕ → Type 0
PrefixRead text p none b = b ≡ p
PrefixRead text p (some base) b = (m : ℕ) × IsMarker m base × Reads text p (b'0' ∷ m ∷ []) b

number_prefix-IsMarker :
    (t : Tokeniser) (base : ℕ)
    → number_prefix t ≡ some base
    → (peek t ≡ b'0') × IsMarker (next t) base
unfolding number_prefix
number_prefix-IsMarker t base e = grind arith

pub number_prefix-reads :
    (text : List ℕ) (ts : List Token) (p : ℕ)
    → (b : ℕ) × PrefixRead text p (number_prefix (place text ts p)) b
      × (incs (prefix_width (number_prefix (place text ts p))) (place text ts p) ≡ place text ts b)
unfolding incs
number_prefix-reads text ts p = elim (Option-cases (number_prefix (place text ts p))) [
  | inl e ↦ rw e (p, refl, refl)
  | inr (base, e) ↦
      let (zero_first, m) = number_prefix-IsMarker (place text ts p) base e in
      rw e (
        suc (suc p),
        (
          code_at text (suc p),
          subst (λ c. IsMarker c base) (next-place text ts p) m,
          (zero_first, (refl, refl)),
        ),
        incs-place text ts p (suc (suc p)) (code_at text p ∷ code_at text (suc p) ∷ [])
            (refl, (refl, refl)),
      )
]

IsMarker-ne-zero : (m base : ℕ) → IsMarker m base → m ≢ 0
IsMarker-ne-zero m base h e = grind arith

pub PrefixRead-within :
    (text : List ℕ) (p b : ℕ) (o : Option ℕ)
    → PrefixRead text p o b
    → p ≤ length text
    → b ≤ length text
PrefixRead-within text p b none e h = omega arith
PrefixRead-within text p b (some base) (m, k, (z, (c, e))) h =
    let within : suc p < length text =
      lt-of_code_at text (suc p) (λ n. IsMarker-ne-zero m base k (sym c ∙ n)) in
    omega arith
