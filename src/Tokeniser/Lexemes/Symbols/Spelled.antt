-- ===== src/Tokeniser/Lexemes/Symbols/Spelled.antt =====
-- How the symbols of tokeniser/tokeniser.go are spelled.
use qk.Prelude.{
  ℕ, suc, ◌≡◌, ◌≢◌, refl, sym, ap, ap₂, ◌∙◌, &&_split, Bool, true, false, ◌&&◌, Option, none, some,
  List, [], ◌∷◌, ◌==◌, if◌then◌else◌, length, arith,
}
use qk.Tokeniser.Token.{TokenKind, token_width}
use qk.Tokeniser.Step.{with_second}
use qk.Tokeniser.Lexemes.{spelling, is_symbol}

-- A kind and how often it moves, spelled by the first of three characters, by two, or by all.
pub data SpelledBy (c n d : ℕ) : Option (TokenKind × ℕ) → Type 0 where
  nothing : SpelledBy c n d none
  one :
      (k : TokenKind)
      → spelling k ≡ c ∷ []
      → token_width k ≡ 1
      → is_symbol k ≡ true
      → SpelledBy c n d (some (k, 1))
  two :
      (k : TokenKind)
      → spelling k ≡ c ∷ n ∷ []
      → token_width k ≡ 2
      → is_symbol k ≡ true
      → n ≢ 0
      → SpelledBy c n d (some (k, 2))
  three :
      (k : TokenKind)
      → spelling k ≡ c ∷ n ∷ d ∷ []
      → token_width k ≡ 3
      → is_symbol k ≡ true
      → d ≢ 0
      → SpelledBy c n d (some (k, 3))

-- A predicate of both branches of a test.
pub if-On :
    {A : Type 0} (P : A → Type 0) (b : Bool) (x y : A)
    → (b ≡ true → P x)
    → (b ≡ false → P y)
    → P (if b then x else y)
if-On P true x y h k = h refl
if-On P false x y h k = k refl

pub if-Else :
    {A : Type 0} (P : A → Type 0) (b : Bool) (x y : A)
    → (b ≡ true → P x)
    → P y
    → P (if b then x else y)
if-Else P b x y h k = if-On P b x y h (λ _. k)

pub eq_of_test : (a b : ℕ) → (a == b) ≡ true → a ≡ b
eq_of_test a b h = ground arith

pub not_eq : (a b : ℕ) → (a == b) ≡ false → a ≢ b
not_eq a b h = ground arith

-- The facts on a kind of symbol that is spelled so.
abbrev IsKind : TokenKind → List ℕ → Type 0
IsKind k s = (spelling k ≡ s) × (token_width k ≡ length s) × (is_symbol k ≡ true)

module _ (c n d : ℕ) where
  pub one_char :
      (k : TokenKind) (a : ℕ) → IsKind k (a ∷ []) → (c == a) ≡ true → SpelledBy c n d (some (k, 1))
  one_char k a (s, w, i) h = one k (s ∙ ap (λ x. x ∷ []) (sym (eq_of_test c a h))) w i

  pub two_chars :
      (k : TokenKind) (a b : ℕ)
      → IsKind k (a ∷ suc b ∷ [])
      → (c == a) ≡ true
      → (n == suc b) ≡ true
      → SpelledBy c n d (some (k, 2))
  two_chars k a b (s, w, i) h e =
      two k (s ∙ ap₂ (λ x y. x ∷ y ∷ []) (sym (eq_of_test c a h)) (sym (eq_of_test n (suc b) e))) w
        i (ground arith)

  pub three_chars :
      (k : TokenKind) (a b b' : ℕ)
      → IsKind k (a ∷ b ∷ suc b' ∷ [])
      → (c == a) ≡ true
      → (n == b && d == suc b') ≡ true
      → SpelledBy c n d (some (k, 3))
  three_chars k a b b' (s, w, i) h e =
      let (e, f) = &&_split (n == b) (d == suc b') e in
      three k (rw (eq_of_test c a h) (rw (eq_of_test n b e) (rw (eq_of_test d (suc b') f) s))) w i
        (ground arith)

  pub second_char :
      (long short : TokenKind) (a b : ℕ)
      → IsKind long (a ∷ suc b ∷ [])
      → IsKind short (a ∷ [])
      → (c == a) ≡ true
      → SpelledBy c n d (some (with_second n (suc b) long short))
  second_char long short a b l s h =
      if-On (λ r. SpelledBy c n d (some r)) _ _ _ (λ e. two_chars long a b l h e)
        (λ _. one_char short a s h)
