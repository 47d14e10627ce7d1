-- ===== src/Tokeniser/Lexemes/Turns.antt =====
-- One round of Tokenise of tokeniser/tokeniser.go reads a token or skips a gap.
use qk.Prelude.{
  ℕ, suc, ◌+◌, ◌≤◌, ◌<◌, ◌≡◌, ◌≢◌, refl, sym, ap, ◌∙◌, ◌⊎◌, inl, inr, true, false, not, ◌&&◌, ◌||◌,
  List, [], ◌∷◌, ◌++◌, ◌==◌, if◌then◌else◌, length, arith, &&_split,
}
use mathlib.Core.Path.{subst}
use qk.Tokeniser.Token.{
  keyword, identifier, number, float, string, c_string, char, two_dots, three_dots, Token,
  is_keyword, symbol_text,
}
use qk.Tokeniser.Cursor.{
  code_at, peek, next, inc, incs, is_alpha, is_num, is_space, is_legal_word_start,
  is_legal_word_char, get_loc, previous_ends_expression_here, previous_minus_here,
}
use qk.Tokeniser.Read.{ok, failed, read_word, char_end}
use qk.Tokeniser.Number.{read_number}
use qk.Tokeniser.Text.{handle_escape, read_string, ignore_comment}
use qk.Tokeniser.Step.{
  more, emit, word_turn, has_char, number_turn, string_turn, c_string_turn, char_turn, dots_turn,
  minus_turn, slash_turn, switch_turn, turn,
}
use qk.Tokeniser.Place.{
  place, Reads, Reads-append, Reads-length, inc-place, incs-place, lt-of_code_at, add_token-eof,
}
use qk.Tokeniser.Lexemes.{
  All, Escaped, Numeral, Spells, word, numeral, negative, text as text_spelled, c_text, character,
  is_symbol, space, continuation,
}
use qk.Tokeniser.Lexemes.Words.{Gives, read_word-Run}
use qk.Tokeniser.Lexemes.Texts.{EscapeRead, StringRead, handle_escape-reads, read_string-reads}
use qk.Tokeniser.Lexemes.Numbers.{next-place, SignedRead, read_number-reads}
use qk.Tokeniser.Lexemes.Gaps.{Skipped, ignore_comment-Skipped, ignore_multiline_comment-Skipped}
use qk.Tokeniser.Lexemes.Symbols.{if-On, if-Else, eq_of_test, not_eq}
use qk.Tokeniser.Lexemes.Turned.{
  Turned, stays, ends, fails, Turned-bind, emits, skips, symbol_turn-Turned, dots,
}

starts_nothing : (c : ℕ) → is_legal_word_start c ≡ true → is_legal_word_char c ≡ false → ⊥
starts_nothing c h k = ground arith

module _ (text : List ℕ) (ts : List Token) (p : ℕ) where
  word_spelled :
      (q : ℕ) (w : List ℕ)
      → is_legal_word_start (code_at text p) ≡ true
      → Reads text p w q
      → All is_legal_word_char w
      → is_legal_word_char (code_at text q) ≡ false
      → Spells w (if is_keyword w then keyword else identifier) w 0 (code_at text q) × (p < q)
  word_spelled q [] h r a z = absurd (starts_nothing (code_at text p) h (rw r z))
  word_spelled q (c ∷ w) h (e, r) a z =
      (word c w (code_at text q) (rw (← e) h) a.1 z, omega (arith, Reads-length text (suc p) q w r))

  word_turn-Turned :
      p ≤ length text
      → is_legal_word_start (code_at text p) ≡ true
      → Turned text ts p (word_turn (place text ts p))
  unfolding word_turn
  word_turn-Turned b h =
      let (q, e, r, a, z, l) = read_word-Run text ts p b in
      let (w, o) = word_spelled q (read_word (place text ts p)).0 h r a z in
      emits text ts p _ _ 0 q _ (read_word (place text ts p)).1 e r o l w

  signed_spelled :
      (s v : List ℕ) (base behind : ℕ)
      → Numeral s base v
        ⊎ (s' : List ℕ) × (v' : List ℕ) × (s ≡ b'-' ∷ s') × (v ≡ b'-' ∷ v') × Numeral s' base v'
      → (is_alpha behind || is_num behind) ≡ false
      → Spells s (if has_char b'.' v then float else number) v base behind
  signed_spelled s v base behind (inl n) z = numeral s v base behind n z
  signed_spelled s v base behind (inr (s', v', e, f, n)) z =
      rw (e, f) (negative s' v' base behind n z)

  number_turn-Turned : p ≤ length text → Turned text ts p (number_turn (place text ts p))
  unfolding number_turn
  number_turn-Turned b =
      Turned-bind text ts p (SignedRead text ts p) (read_number (place text ts p)) _
        (read_number-reads text ts p b)
        (λ r (q, s, e, d, n, z, o, l).
          emits text ts p _ r.0 r.1 q s r.2 e d o l (signed_spelled s r.0 r.1 (code_at text q) n z))

  string_turn-Turned : (limit : ℕ) → Turned text ts p (string_turn limit (place text ts p))
  unfolding string_turn
  string_turn-Turned limit =
      Turned-bind text ts p (StringRead text ts p) (read_string limit (place text ts p)) _
        (read_string-reads text ts limit p)
        (λ r (q, s, e, d, w, l).
          emits text ts p string r.0 0 q (b'"' ∷ (s ++ b'"' ∷ [])) r.1 e d
            (omega (arith, Reads-length text p q (b'"' ∷ (s ++ b'"' ∷ [])) d)) l
            (text_spelled s r.0 (code_at text q) w))

  c_string_turn-Turned :
      (limit : ℕ) → code_at text p ≡ b'c' → Turned text ts p (c_string_turn limit (place text ts p))
  unfolding c_string_turn
  c_string_turn-Turned limit h =
      Turned-bind text ts p (StringRead text ts (suc p)) (read_string limit (inc (place text ts p)))
        _
        (subst (λ u. Gives (StringRead text ts (suc p)) (read_string limit u))
          (sym (inc-place text ts p)) (read_string-reads text ts limit (suc p)))
        (λ r (q, s, e, d, w, l).
          emits text ts p c_string r.0 0 q (b'c' ∷ b'"' ∷ (s ++ b'"' ∷ [])) r.1 e (h, d)
            (omega (arith, Reads-length text (suc p) q (b'"' ∷ (s ++ b'"' ∷ [])) d)) l
            (c_text s r.0 (code_at text q) w))

  quoted :
      (c q : ℕ) (s : List ℕ)
      → code_at text p ≡ b'\''
      → Reads text (suc p) s q
      → Escaped s c
      → code_at text q ≡ b'\''
      → Turned text ts p (emit char (c ∷ []) 0 (place text ts p) (inc (place text ts q)))
  quoted c q s h d w k =
      let r = Reads-append text (suc p) q (suc q) s (b'\'' ∷ []) d (k, refl) in
      emits text ts p char (c ∷ []) 0 (suc q) (b'\'' ∷ (s ++ b'\'' ∷ [])) _ (inc-place text ts q)
        (h, r) (omega (arith, Reads-length text (suc p) q s d))
        (lt-of_code_at text q (ground arith)) (character s c (code_at text (suc q)) w)

  char_turn-Turned : code_at text p ≡ b'\'' → Turned text ts p (char_turn (place text ts p))
  unfolding char_turn
  char_turn-Turned h =
      Turned-bind text ts p (EscapeRead text ts (suc p)) (handle_escape (inc (place text ts p))) _
        (subst (λ u. Gives (EscapeRead text ts (suc p)) (handle_escape u))
          (sym (inc-place text ts p)) (handle_escape-reads text ts (suc p)))
        (λ r (q, s, e, d, w).
          subst
            (λ u. Turned text ts p (
              if not (peek u == b'\'')
              then failed (get_loc (place text ts p)) char_end
              else emit char (r.0 ∷ []) 0 (place text ts p) (inc u)))
            (sym e)
            (if-On (Turned text ts p) (not (code_at text q == b'\'')) _ _ (λ _. fails _ _)
              (λ k. quoted r.0 q (code_at text (suc p) ∷ s) h d w (ground arith))))

  dots_turn-Turned : code_at text p ≡ b'.' → Turned text ts p (dots_turn (place text ts p))
  unfolding dots_turn symbol_text is_symbol
  dots_turn-Turned h =
      if-On (Turned text ts p) _ _ _
        (λ k.
          let second : code_at text (suc p) ≡ b'.' =
            sym (next-place text ts p) ∙ eq_of_test _ _ k in
          if-On (Turned text ts p) _ _ _
            (λ m.
              let third : code_at text (suc (suc p)) ≡ b'.' =
                sym (next-place text ts (suc p))
                ∙ (ap next (sym (inc-place text ts p)) ∙ eq_of_test _ _ m) in
              dots text ts p three_dots (suc (suc (suc p))) (b'.' ∷ b'.' ∷ b'.' ∷ [])
                (h, (second, (third, refl))) refl refl (omega arith)
                (lt-of_code_at text (suc (suc p)) (ground arith)))
            (λ _.
              dots text ts p two_dots (suc (suc p)) (b'.' ∷ b'.' ∷ []) (h, (second, refl)) refl refl
                (omega arith) (lt-of_code_at text (suc p) (ground arith))))
        (λ _. symbol_turn-Turned text ts p (ground arith))

  minus_turn-Turned :
      p ≤ length text → code_at text p ≢ 0 → Turned text ts p (minus_turn (place text ts p))
  unfolding minus_turn
  minus_turn-Turned b h =
      let t = place text ts p in
      if-Else (Turned text ts p) (next t == b'-' && code_at text (p + 2) == b'-') _ _
        (λ _. symbol_turn-Turned text ts p h)
        (if-Else (Turned text ts p)
          (is_num (next t) && not (previous_ends_expression_here t) && not (previous_minus_here t))
          _ _ (λ _. number_turn-Turned b) (symbol_turn-Turned text ts p h))

  slash_turn-Turned :
      (limit : ℕ) → code_at text p ≡ b'/' → Turned text ts p (slash_turn limit (place text ts p))
  unfolding slash_turn
  slash_turn-Turned limit h =
      if-On (Turned text ts p) _ _ _
        (λ k.
          Turned-bind text ts p (Skipped text ts p) (ignore_comment limit (place text ts p)) _
            (ignore_comment-Skipped text ts limit p h
              (sym (next-place text ts p) ∙ eq_of_test _ _ k))
            (λ u g. skips text ts p u g))
        (λ _.
          if-On (Turned text ts p) _ _ _
            (λ k. skips text ts p _ (
              ignore_multiline_comment-Skipped text ts p h
                (sym (next-place text ts p) ∙ eq_of_test _ _ k)))
            (λ _. symbol_turn-Turned text ts p (ground arith)))

  backslash-Turned :
      code_at text p ≡ b'\\'
      → Turned text ts p (
          ok (
            more (
              if next (place text ts p) == b'\n'
              then incs 2 (place text ts p)
              else place text ts p)))
  backslash-Turned h =
      if-On (λ u. Turned text ts p (ok (more u))) _ _ _
        (λ k.
          let r : Reads text p (b'\\' ∷ b'\n' ∷ []) (suc (suc p)) =
            (h, (sym (next-place text ts p) ∙ eq_of_test _ _ k, refl)) in
          skips text ts p _ (
            suc (suc p),
            incs-place text ts p (suc (suc p)) (b'\\' ∷ b'\n' ∷ []) r,
            continuation p (suc (suc p)) r,
          ))
        (λ k. stays h (λ e. not_eq _ _ k (next-place text ts p ∙ e)))

  switch_turn-Turned :
      (limit : ℕ)
      → p ≤ length text
      → code_at text p ≢ 0
      → Turned text ts p (switch_turn limit (place text ts p))
  unfolding switch_turn
  switch_turn-Turned limit b h =
      let P = Turned text ts p in
      let c = code_at text p in
      if-Else P (c == b'"') _ _ (λ _. string_turn-Turned limit)
        (if-Else P (c == b'\\') _ _ (λ k. backslash-Turned (eq_of_test _ _ k))
          (if-Else P (c == b'-') _ _ (λ _. minus_turn-Turned b h)
            (if-Else P (c == b'/') _ _ (λ k. slash_turn-Turned limit (eq_of_test _ _ k))
              (if-Else P (c == b'.') _ _ (λ k. dots_turn-Turned (eq_of_test _ _ k))
                (if-Else P (c == b'\'') _ _ (λ k. char_turn-Turned (eq_of_test _ _ k))
                  (symbol_turn-Turned text ts p h))))))

  pub turn-Turned : (limit : ℕ) → p ≤ length text → Turned text ts p (turn limit (place text ts p))
  unfolding turn
  turn-Turned limit b =
      if-On (Turned text ts p) _ _ _ (λ k. ends _ (eq_of_test _ _ k) (add_token-eof text ts p))
        (λ n.
          let P = Turned text ts p in
          let c = code_at text p in
          let h : c ≢ 0 = not_eq _ _ n in
          if-Else P (is_space c) _ _
            (λ k. skips text ts p _ (suc p, inc-place text ts p, space p k))
            (if-Else P (c == b'c' && next (place text ts p) == b'"') _ _
              (λ k. c_string_turn-Turned limit (eq_of_test _ _ (&&_split _ _ k).0))
              (if-Else P (is_legal_word_start c) _ _ (λ k. word_turn-Turned b k)
                (if-Else P (is_num c) _ _ (λ _. number_turn-Turned b)
                  (switch_turn-Turned limit b h)))))
