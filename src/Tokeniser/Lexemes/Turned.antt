-- ===== src/Tokeniser/Lexemes/Turned.antt =====
-- What one round of Tokenise of tokeniser/tokeniser.go may give, and the rounds that read a symbol.
use qk.Prelude.{
  ℕ, suc, ◌+◌, ◌≤◌, ◌<◌, ◌≡◌, ◌≢◌, refl, sym, ap, ap₂, ◌∙◌, true, false, Option, none, some, List,
  [], ◌∷◌, ◌++◌, length, arith,
}
use mathlib.Core.Path.{subst}
use mathlib.Core.List.{append-nil}
use qk.Tokeniser.Token.{TokenKind, eof, Token, token_width, Location}
use qk.Tokeniser.Cursor.{Tokeniser, code_at, next, incs, is_eof, get_loc, add_token}
use qk.Tokeniser.Read.{Fault, Read, ok, failed, endless, ◌>>=◌}
use qk.Tokeniser.Step.{Turn, more, finished, emit, symbol, take_symbol, symbol_turn}
use qk.Tokeniser.Place.{
  place, token_at, Reads, incs-place, lt-of_code_at, add_token-passed, add_token-ahead,
}
use qk.Tokeniser.Lexemes.{Spells, symbol as symbol_spelled, spelling, is_symbol, Part, gap, lexeme}
use qk.Tokeniser.Lexemes.Words.{Gives}
use qk.Tokeniser.Lexemes.Numbers.{next-place}
use qk.Tokeniser.Lexemes.Gaps.{Skipped}
use qk.Tokeniser.Lexemes.Symbols.{SpelledBy, nothing, one, two, three, symbol-SpelledBy}

-- What a round from an offset gives: a part of the text is passed, or the round is one at a backslash
-- that changes nothing, or the text has ended.
pub data Turned (text : List ℕ) (ts : List Token) (p : ℕ) : Read Turn → Type 0 where
  passes :
      (q : ℕ) (new : List Token) (u : Tokeniser)
      → u ≡ place text (ts ++ new) q
      → Part text p q new
      → Turned text ts p (ok (more u))
  stays :
      code_at text p ≡ b'\\'
      → code_at text (suc p) ≢ b'\n'
      → Turned text ts p (ok (more (place text ts p)))
  ends :
      (out : List Token)
      → code_at text p ≡ 0
      → out ≡ ts ++ token_at text p p eof [] 0 ∷ []
      → Turned text ts p (ok (finished out))
  fails : (l : Location) (e : Fault) → Turned text ts p (failed l e)
  starves : (u : Tokeniser) → Turned text ts p (endless u)

is_eof-symbol : (k : TokenKind) → is_symbol k ≡ true → is_eof k ≡ false
unfolding is_symbol is_eof
is_eof-symbol k h = ground arith

module _ (text : List ℕ) (ts : List Token) (p : ℕ) where
  pub Turned-bind :
      {A : Type 0} (P : A → Type 0) (m : Read A) (f : A → Read Turn)
      → Gives P m
      → ((a : A) → P a → Turned text ts p (f a))
      → Turned text ts p (m >>= f)
  Turned-bind P (ok a) f h k = k a h
  Turned-bind P (failed l e) f h k = fails l e
  Turned-bind P (endless u) f h k = starves u

  -- A token that the tokeniser has passed.
  pub emits :
      (k : TokenKind) (v : List ℕ) (base q : ℕ) (s : List ℕ) (u : Tokeniser)
      → u ≡ place text ts q
      → Reads text p s q
      → p < q
      → q ≤ length text
      → Spells s k v base (code_at text q)
      → Turned text ts p (emit k v base (place text ts p) u)
  emits k v base q s u e r o l w =
      passes q (token_at text p q k v base ∷ []) _
        (ap (add_token k (get_loc (place text ts p)) v base) e
          ∙ add_token-passed text ts k v base p q o)
        (lexeme p q s k v base r o l w)

  pub skips : (u : Tokeniser) → Skipped text ts p u → Turned text ts p (ok (more u))
  skips u (q, e, g) = passes q [] u (e ∙ ap (λ l. place text l q) (sym (append-nil ts))) (gap p q g)

  -- A token that the tokeniser has before it.
  announces :
      (k : TokenKind) (n q : ℕ) (s : List ℕ)
      → Reads text p s q
      → p < q
      → q ≤ length text
      → spelling k ≡ s
      → is_symbol k ≡ true
      → token_width k ≡ n
      → n ≡ length s
      → Turned text ts p
          (ok (more (incs n (add_token k (get_loc (place text ts p)) [] 0 (place text ts p)))))
  announces k n q s r o l e i w c =
      passes q (token_at text p q k [] 0 ∷ []) _
        (ap₂ incs c (add_token-ahead text ts k [] 0 p q s (is_eof-symbol k i) r (w ∙ c) l)
          ∙ incs-place text (ts ++ token_at text p q k [] 0 ∷ []) p q s r)
        (lexeme p q s k [] 0 r o l
          (subst (λ x. Spells x k [] 0 (code_at text q)) e (symbol_spelled k (code_at text q) i)))

  within_one : code_at text p ≢ 0 → suc p ≤ length text
  within_one h = lt-of_code_at text p h

  take_symbol-Turned :
      {d : ℕ} (o : Option (TokenKind × ℕ))
      → code_at text p ≢ 0
      → code_at text (suc (suc p)) ≡ d
      → SpelledBy (code_at text p) (code_at text (suc p)) d o
      → Turned text ts p (take_symbol o (place text ts p))
  unfolding take_symbol
  take_symbol-Turned none h z nothing = fails _ _
  take_symbol-Turned (some r) h z (one k s t i) =
      announces k 1 (suc p) (code_at text p ∷ []) (refl, refl) (omega arith) (within_one h) s i t
        refl
  take_symbol-Turned (some r) h z (two k s t i n) =
      announces k 2 (suc (suc p)) (code_at text p ∷ code_at text (suc p) ∷ []) (refl, (refl, refl))
        (omega arith) (lt-of_code_at text (suc p) n) s i t refl
  take_symbol-Turned (some r) h z (three k s t i n) =
      announces k 3 (suc (suc (suc p))) (code_at text p ∷ code_at text (suc p) ∷ _ ∷ [])
        (refl, (refl, (z, refl))) (omega arith)
        (lt-of_code_at text (suc (suc p)) (λ e. n (sym z ∙ e))) s i t refl

  pub symbol_turn-Turned : code_at text p ≢ 0 → Turned text ts p (symbol_turn (place text ts p))
  unfolding symbol_turn
  symbol_turn-Turned h = take_symbol-Turned _ h (ap (code_at text) (omega arith)) (
      subst
        (λ c.
          SpelledBy (code_at text p) c (code_at text (p + 2))
            (symbol (code_at text p) (next (place text ts p)) (code_at text (p + 2))))
        (next-place text ts p)
        (symbol-SpelledBy (code_at text p) (next (place text ts p)) (code_at text (p + 2))))

  pub dots :
      (k : TokenKind) (q : ℕ) (s : List ℕ)
      → Reads text p s q
      → spelling k ≡ s
      → is_symbol k ≡ true
      → p < q
      → q ≤ length text
      → Turned text ts p (emit k [] 0 (place text ts p) (incs (length s) (place text ts p)))
  dots k q s r e i o l =
      emits k [] 0 q s _ (incs-place text ts p q s r) r o l
        (subst (λ x. Spells x k [] 0 (code_at text q)) e (symbol_spelled k (code_at text q) i))
