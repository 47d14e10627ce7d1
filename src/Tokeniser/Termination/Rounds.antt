-- ===== src/Tokeniser/Termination/Rounds.antt =====
-- The rounds of Tokenise of tokeniser/tokeniser.go, in a text that ends in a newline.
use qk.Prelude.{
  ℕ, zero, suc, ◌+◌, ◌≤◌, ◌<◌, ◌≡◌, ◌≢◌, refl, sym, ap, ◌∙◌, ◌⊎◌, inl, inr, true, false, not, ◌&&◌,
  ◌||◌, some, List, [], ◌∷◌, ◌==◌, ltb, &&_split, length, arith, Bool-cases,
}
use mathlib.Core.Path.{subst}
use mathlib.Core.List.{tail-eq_of_cons-eq}
use qk.Tokeniser.Token.{Token}
use qk.Tokeniser.Cursor.{
  Tokeniser, code_at, peek, next, inc, incs, is_num, is_space, is_legal_word_start,
  previous_ends_expression_here, previous_minus_here,
}
use qk.Tokeniser.Read.{ok, ◌>>=◌}
use qk.Tokeniser.Text.{
  escape_of, handle_escape, read_string_loop, read_string, skip_line, ignore_comment,
}
use qk.Tokeniser.Step.{
  word_turn, string_turn, c_string_turn, dots_turn, minus_turn, slash_turn, switch_turn, turn,
}
use qk.Tokeniser.Place.{place, Reads, inc-place, incs-place, lt-of_code_at}
use qk.Tokeniser.Lexemes.{Escaped, plain, escape}
use qk.Tokeniser.Lexemes.Texts.{
  EscapeRead, handle_escape-reads, read_string_loop-done, read_string_loop-more,
}
use qk.Tokeniser.Lexemes.Numbers.{next-place}
use qk.Tokeniser.Lexemes.Gaps.{skip_line-done, skip_line-more}
use qk.Tokeniser.Lexemes.Symbols.{if-On, if-Else, eq_of_test, not_eq}
use qk.Tokeniser.Settles.{
  Settles, gives, fails, Settles-bind, Settles-chain, handle_escape-Settles, symbol_turn-Settles,
  number_turn-Settles, char_turn-Settles,
}

Escaped-cases :
    {l : List ℕ} {c : ℕ}
    → Escaped l c
    → ((b : ℕ) × (l ≡ b ∷ [])) ⊎ ((b : ℕ) × (d : ℕ) × (l ≡ b ∷ d ∷ []) × (escape_of d ≡ some c))
Escaped-cases (plain c h) = inl (c, refl)
Escaped-cases (escape b d c h e) = inr (b, d, refl, e)

escape_of-newline : (d c : ℕ) → escape_of d ≡ some c → d ≢ b'\n'
unfolding escape_of
escape_of-newline d c h e = ground arith

body_char-newline : (d : ℕ) → (d == b'"' || d == b'\n') ≡ false → d ≢ b'\n'
body_char-newline d h e = ground arith

-- An escape or a character of a string ends before the newline at the end of the text.
escape-before :
    (text : List ℕ) (ts : List Token) (n p : ℕ) (r : ℕ × Tokeniser)
    → code_at text n ≡ b'\n'
    → p ≤ n
    → (code_at text p == b'"' || code_at text p == b'\n') ≡ false
    → (x : EscapeRead text ts p r) → (p < x.0) × (x.0 ≤ n)
escape-before text ts n p r z h k (q, s, e, d, w) =
    let first : p ≢ n = λ f. body_char-newline (code_at text p) k (ap (code_at text) f ∙ z) in
    elim (Escaped-cases w) [
      | inl (b, f) ↦
          let m : suc p ≡ q = subst (λ s'. Reads text (suc p) s' q) (tail-eq_of_cons-eq f) d.1 in
          (omega arith, omega arith)
      | inr (b, c, f, g) ↦
          let m : Reads text (suc p) (c ∷ []) q =
            subst (λ s'. Reads text (suc p) s' q) (tail-eq_of_cons-eq f) d.1 in
          let second : suc p ≢ n =
            λ f. escape_of-newline c r.0 g (sym m.0 ∙ (ap (code_at text) f ∙ z)) in
          let third : suc (suc p) ≡ q = m.1 in (omega arith, omega arith)
    ]

not_newline : (c : ℕ) → ltb b'\n' c ≡ true → c ≢ b'\n'
not_newline c h e = ground arith

-- The text ends at a newline.
module _ (text : List ℕ) (ts : List Token) (n : ℕ) (z : code_at text n ≡ b'\n') where
  -- Another character at an offset is before the newline.
  before : (p c : ℕ) → p ≤ n → code_at text p ≡ c → ltb b'\n' c ≡ true → p < n
  before p c h e k =
      let other : p ≢ n = λ f. not_newline c k (sym e ∙ (ap (code_at text) f ∙ z)) in omega arith

  read_string_loop-Settles :
      (limit p : ℕ) → p ≤ n → n < limit + p → Settles (read_string_loop limit (place text ts p))
  unfolding read_string_loop
  read_string_loop-Settles zero p h l = absurd (omega arith)
  read_string_loop-Settles (suc limit) p h l =
      elim (Bool-cases (code_at text p == b'"' || code_at text p == b'\n')) [
        | inl k ↦ rw (read_string_loop-done limit (place text ts p) k) (gives _)
        | inr k ↦ rw (read_string_loop-more limit (place text ts p) k) (
            Settles-bind (EscapeRead text ts p) (handle_escape (place text ts p))
              (λ a. read_string_loop limit a.1 >>= (λ b. ok (a.0 ∷ b.0, b.1)))
              (handle_escape-reads text ts p) (handle_escape-Settles (place text ts p))
              (λ a x.
                let (o, m) = escape-before text ts n p a z h k x in
                rw x.2 (
                  Settles-chain (read_string_loop limit (place text ts x.0)) _
                    (read_string_loop-Settles limit x.0 m (omega arith)) (λ b. gives _))))
      ]

  read_string-Settles :
      (limit p : ℕ) → p < n → n < limit + suc p → Settles (read_string limit (place text ts p))
  unfolding read_string
  read_string-Settles limit p h l =
      if-Else Settles (not (code_at text p == b'"')) _ _ (λ _. fails _ _)
        (Settles-chain (read_string_loop limit (inc (place text ts p))) _
          (subst (λ u. Settles (read_string_loop limit u)) (sym (inc-place text ts p))
            (read_string_loop-Settles limit (suc p) (omega arith) l))
          (λ r. if-Else Settles (not (peek r.1 == b'"')) _ _ (λ _. fails _ _) (gives _)))

  skip_line-Settles :
      (limit p : ℕ) → p ≤ n → n < limit + p → Settles (skip_line limit (place text ts p))
  unfolding skip_line
  skip_line-Settles zero p h l = absurd (omega arith)
  skip_line-Settles (suc limit) p h l = elim (Bool-cases (code_at text p == b'\n')) [
    | inl k ↦ rw (skip_line-done limit (place text ts p) k) (gives _)
    | inr k ↦
        let first : p ≢ n = λ f. not_eq _ _ k (ap (code_at text) f ∙ z) in
        rw (skip_line-more limit (place text ts p) k)
          (rw (inc-place text ts p) (skip_line-Settles limit (suc p) (omega arith) (omega arith)))
  ]

  slash_turn-Settles :
      (limit p : ℕ)
      → code_at text p ≡ b'/'
      → p ≤ n
      → n < limit
      → Settles (slash_turn limit (place text ts p))
  unfolding slash_turn ignore_comment
  slash_turn-Settles limit p c h l =
      if-Else Settles (next (place text ts p) == b'/') _ _
        (λ k.
          let d : code_at text (suc p) ≡ b'/' = sym (next-place text ts p) ∙ eq_of_test _ _ k in
          let first = before p b'/' h c refl in
          let second = before (suc p) b'/' (omega arith) d refl in
          Settles-chain (skip_line limit (incs 2 (place text ts p))) _
            (subst (λ u. Settles (skip_line limit u))
              (sym (incs-place text ts p (suc (suc p)) (b'/' ∷ b'/' ∷ []) (c, (d, refl))))
              (skip_line-Settles limit (suc (suc p)) (omega arith) (omega arith)))
            (λ u. gives _))
        (if-Else Settles (next (place text ts p) == b'*') _ _ (λ _. gives _)
          (symbol_turn-Settles _))

  string_turn-Settles :
      (limit p : ℕ) → p < n → n < limit → Settles (string_turn limit (place text ts p))
  unfolding string_turn
  string_turn-Settles limit p h l =
      Settles-chain (read_string limit (place text ts p)) _
        (read_string-Settles limit p h (omega arith)) (λ r. gives _)

  c_string_turn-Settles :
      (limit p : ℕ) → suc p < n → n < limit → Settles (c_string_turn limit (place text ts p))
  unfolding c_string_turn
  c_string_turn-Settles limit p h l =
      Settles-chain (read_string limit (inc (place text ts p))) _
        (subst (λ u. Settles (read_string limit u)) (sym (inc-place text ts p))
          (read_string-Settles limit (suc p) h (omega arith)))
        (λ r. gives _)

  minus_turn-Settles : (p : ℕ) → Settles (minus_turn (place text ts p))
  unfolding minus_turn
  minus_turn-Settles p =
      let t = place text ts p in
      if-Else Settles (next t == b'-' && code_at text (p + 2) == b'-') _ _
        (λ _. symbol_turn-Settles t)
        (if-Else Settles
          (is_num (next t) && not (previous_ends_expression_here t) && not (previous_minus_here t))
          _ _ (λ _. number_turn-Settles t) (symbol_turn-Settles t))

  dots_turn-Settles : (t : Tokeniser) → Settles (dots_turn t)
  unfolding dots_turn
  dots_turn-Settles t =
      if-Else Settles (next t == b'.') _ _
        (λ _. if-Else Settles (next (inc t) == b'.') _ _ (λ _. gives _) (gives _))
        (symbol_turn-Settles t)

  switch_turn-Settles :
      (limit p : ℕ) → p ≤ n → n < limit → Settles (switch_turn limit (place text ts p))
  unfolding switch_turn
  switch_turn-Settles limit p h l =
      let t = place text ts p in
      let c = code_at text p in
      if-Else Settles (c == b'"') _ _
        (λ k. string_turn-Settles limit p (before p b'"' h (eq_of_test _ _ k) refl) l)
        (if-Else Settles (c == b'\\') _ _ (λ _. gives _)
          (if-Else Settles (c == b'-') _ _ (λ _. minus_turn-Settles p)
            (if-Else Settles (c == b'/') _ _
              (λ k. slash_turn-Settles limit p (eq_of_test _ _ k) h l)
              (if-Else Settles (c == b'.') _ _ (λ _. dots_turn-Settles t)
                (if-Else Settles (c == b'\'') _ _ (λ _. char_turn-Settles t)
                  (symbol_turn-Settles t))))))

  pub turn-Settles :
      (limit p : ℕ) → length text ≡ suc n → n < limit → Settles (turn limit (place text ts p))
  unfolding turn word_turn
  turn-Settles limit p e l =
      let c = code_at text p in
      if-On Settles (c == 0) _ _ (λ _. gives _)
        (λ k.
          let inside = lt-of_code_at text p (not_eq _ _ k) in
          let h : p ≤ n = omega arith in
          if-Else Settles (is_space c) _ _ (λ _. gives _)
            (if-Else Settles (c == b'c' && next (place text ts p) == b'"') _ _
              (λ k.
                let (first_char, second_char) = &&_split _ _ k in
                let first = before p b'c' h (eq_of_test _ _ first_char) refl in
                c_string_turn-Settles limit p
                  (before (suc p) b'"' (omega arith)
                    (sym (next-place text ts p) ∙ eq_of_test _ _ second_char) refl)
                  l)
              (if-Else Settles (is_legal_word_start c) _ _ (λ _. gives _)
                (if-Else Settles (is_num c) _ _ (λ _. number_turn-Settles _)
                  (switch_turn-Settles limit p h l)))))
