-- ===== src/Tokeniser/Lexemes/Words.antt =====
-- The results of readers, and the loops of tokeniser/tokeniser.go that read while a test holds.
use qk.Prelude.{
  ℕ, zero, suc, ◌+◌, ◌-◌, ◌≤◌, ◌<◌, ◌≡◌, refl, inl, inr, Bool, true, false, List, [], ◌∷◌, length,
  arith, Bool-cases,
}
use mathlib.Core.Path.{subst}
use qk.Tokeniser.Token.{Token}
use qk.Tokeniser.Cursor.{Tokeniser, code_at, peek, inc, is_legal_word_char}
use qk.Tokeniser.Read.{Read, ok, failed, endless, ◌>>=◌, read_while, read_word}
use qk.Tokeniser.Place.{place, Reads, inc-place, lt-of_code_at, code_at-behind}
use qk.Tokeniser.Lexemes.{All}

-- What holds of the value that a reader gives, if it gives one.
abbrev pub Gives : {A : Type 0} → (A → Type 0) → Read A → Type 0
Gives P (ok a) = P a
Gives P (failed l e) = Unit
Gives P (endless t) = Unit

pub Gives-bind :
    {A B : Type 0} (P : A → Type 0) (Q : B → Type 0) (m : Read A) (f : A → Read B)
    → Gives P m
    → ((a : A) → P a → Gives Q (f a))
    → Gives Q (m >>= f)
Gives-bind P Q (ok a) f h k = k a h
Gives-bind P Q (failed l e) f h k = tt
Gives-bind P Q (endless t) f h k = tt

pub Gives-map :
    {A : Type 0} (P Q : A → Type 0) (m : Read A) → ((a : A) → P a → Q a) → Gives P m → Gives Q m
Gives-map P Q (ok a) k h = k a h
Gives-map P Q (failed l e) k h = tt
Gives-map P Q (endless t) k h = tt

pub Gives-of_eq : {A : Type 0} (P : A → Type 0) (m : Read A) (a : A) → Gives P m → m ≡ ok a → P a
Gives-of_eq P (ok b) a h e = subst P (cc) h
Gives-of_eq P (failed l x) a h e = absurd (cc)
Gives-of_eq P (endless t) a h e = absurd (cc)

-- The longest run of characters that pass the test.
abbrev pub Run : List ℕ → List Token → (ℕ → Bool) → ℕ → List ℕ × Tokeniser → Type 0
Run text ts test p r =
    (q : ℕ) × (r.1 ≡ place text ts q)
    × Reads text p r.0 q
    × All test r.0
    × (test (code_at text q) ≡ false)
    × (q ≤ length text)

read_while-on :
    (test : ℕ → Bool) (n : ℕ) (t : Tokeniser)
    → test (peek t) ≡ true
    → read_while test (suc n) t
      ≡ (peek t ∷ (read_while test n (inc t)).0, (read_while test n (inc t)).1)
unfolding read_while
read_while-on test n t h = rw (h, read_while)

read_while-off :
    (test : ℕ → Bool) (n : ℕ) (t : Tokeniser)
    → test (peek t) ≡ false
    → read_while test (suc n) t ≡ ([], t)
unfolding read_while
read_while-off test n t h = rw (h, read_while)

module _ (text : List ℕ) (ts : List Token) (test : ℕ → Bool) (stops : test 0 ≡ false) where
  in_text : (p : ℕ) → test (code_at text p) ≡ true → p < length text
  in_text p h = lt-of_code_at text p (λ e. cc)

  pub read_while-Run :
      (n p : ℕ)
      → length text ≤ n + p
      → p ≤ length text
      → Run text ts test p (read_while test n (place text ts p))
  unfolding read_while
  read_while-Run zero p h b = (p, refl, refl, tt, ground (arith, code_at-behind text p), b)
  read_while-Run (suc n) p h b = elim (Bool-cases (test (code_at text p))) [
    | inl t ↦
        let (q, e, r, a, z, l) = read_while-Run n (suc p) (omega arith) (in_text p t) in
        rw (read_while-on test n (place text ts p) t)
          (rw (inc-place text ts p) (q, e, (refl, r), (t, a), z, l))
    | inr f ↦ rw (read_while-off test n (place text ts p) f) (p, refl, refl, tt, f, b)
  ]

pub read_word-Run :
    (text : List ℕ) (ts : List Token) (p : ℕ)
    → p ≤ length text
    → Run text ts is_legal_word_char p (read_word (place text ts p))
unfolding read_word
read_word-Run text ts p b =
    read_while-Run text ts is_legal_word_char refl (length text - p) p (omega arith) b
