-- ===== src/Tokeniser/Lexemes/Tokens.antt =====
-- Tokenise of tokeniser/tokeniser.go implements the description of the tokens of a text.
use qk.Prelude.{ℕ, zero, suc, ◌≤◌, ◌<◌, ◌≡◌, ◌≢◌, ◌∙◌, true, List, [], ◌∷◌, ◌++◌, length, arith}
use mathlib.Core.List.{append_assoc}
use qk.Tokeniser.Token.{Token, eof}
use qk.Tokeniser.Cursor.{Tokeniser, new_tokeniser, code_at, is_space}
use qk.Tokeniser.Read.{Read, ok}
use qk.Tokeniser.Step.{Turn, after_turn, tokenise}
use qk.Tokeniser.Place.{
  place, token_at, Reads-length, lt-of_code_at, lt-of_char, new_tokeniser-place,
}
use qk.Tokeniser.Lexemes.{
  Block, close, end as block_end, inside, Gap, space, continuation, line_comment, block_comment,
  Part, gap, lexeme, Lexes, end, part,
}
use qk.Tokeniser.Lexemes.Words.{Gives, Gives-map, Gives-of_eq}
use qk.Tokeniser.Lexemes.Turned.{Turned, passes, stays, ends, fails, starves}
use qk.Tokeniser.Lexemes.Turns.{turn-Turned}

space-ne-zero : (c : ℕ) → is_space c ≡ true → c ≢ 0
space-ne-zero c h = ground arith

Block-bounds :
    {text : List ℕ} {p q : ℕ} → Block text p q → p ≤ length text → (p ≤ q) × (q ≤ length text)
Block-bounds {text} (close p c d) h = (omega arith, lt-of_code_at text (suc p) (ground arith))
Block-bounds (block_end p c) h = (omega arith, h)
Block-bounds {text} (inside p q c n b) h =
    let (l, m) = Block-bounds b (lt-of_code_at text p n) in (omega arith, m)

pub Gap-bounds :
    {text : List ℕ} {p q : ℕ} → Gap text p q → p ≤ length text → (p < q) × (q ≤ length text)
Gap-bounds {text} (space p h) b =
    (omega arith, lt-of_code_at text p (space-ne-zero (code_at text p) h))
Gap-bounds {text} (continuation p q r) b =
    let within : suc p < length text = lt-of_char text (suc p) 9 r.1.0 in (omega arith, omega arith)
Gap-bounds {text} (line_comment p q s r a n) b =
    let within : q < length text = lt-of_code_at text q (ground arith) in
    (omega (arith, Reads-length text p q (b'/' ∷ b'/' ∷ s) r), omega arith)
Gap-bounds {text} (block_comment p r q m b) h =
    let within : suc p < length text = lt-of_char text (suc p) 41 m.1.0 in
    let (l, n) = Block-bounds b (omega arith) in (omega arith, n)

pub Part-bounds :
    {text : List ℕ} {p q : ℕ} {new : List Token}
    → Part text p q new
    → p ≤ length text
    → (p < q) × (q ≤ length text)
Part-bounds (gap p q g) h = Gap-bounds g h
Part-bounds (lexeme p q s k v base r o l w) h = (o, l)

-- Some tokens, and those of the text behind them.
abbrev pub LexesFrom : List ℕ → List Token → ℕ → List Token → Type 0
LexesFrom text ts p out = (new : List Token) × (out ≡ ts ++ new) × Lexes text p new

after_turn-Lexes :
    {text : List ℕ} {ts : List Token} {p : ℕ} {r : Read Turn}
    (go_on : Tokeniser → Read (List Token))
    → Turned text ts p r
    → ((q : ℕ) (new : List Token)
        → Part text p q new
        → Gives (LexesFrom text (ts ++ new) q) (go_on (place text (ts ++ new) q)))
    → Gives (LexesFrom text ts p) (go_on (place text ts p))
    → Gives (LexesFrom text ts p) (after_turn go_on r)
unfolding after_turn
after_turn-Lexes {text} {ts} {p} go_on (passes q new u e w) h k = rw e (
    Gives-map (LexesFrom text (ts ++ new) q) (LexesFrom text ts p)
      (go_on (place text (ts ++ new) q))
      (λ out (rest, f, l). (new ++ rest, f ∙ append_assoc ts new rest, part p q new rest w l))
      (h q new w))
after_turn-Lexes go_on (stays c n) h k = k
after_turn-Lexes {text} {ts} {p} go_on (ends out z e) h k =
    (token_at text p p eof [] 0 ∷ [], e, end p z)
after_turn-Lexes go_on (fails l e) h k = tt
after_turn-Lexes go_on (starves u) h k = tt

tokenise-LexesFrom :
    (text : List ℕ) (limit rounds : ℕ) (ts : List Token) (p : ℕ)
    → p ≤ length text
    → Gives (LexesFrom text ts p) (tokenise limit rounds (place text ts p))
unfolding tokenise
tokenise-LexesFrom text limit zero ts p b = tt
tokenise-LexesFrom text limit (suc rounds) ts p b =
    after_turn-Lexes (λ u. tokenise limit rounds u) (turn-Turned text ts p limit b)
      (λ q new w. tokenise-LexesFrom text limit rounds (ts ++ new) q (Part-bounds w b).1)
      (tokenise-LexesFrom text limit rounds ts p b)

-- Where Tokenise returns tokens, they are the tokens of the text by a description without a
-- tokeniser: the text is divided into gaps and spellings of tokens, each token has the kind, the
-- value and the base of its spelling and stands where the spelling does, words and numbers take
-- all characters that belong to them, and the end of the text gives the last token.
pub tokenise-Lexes :
    (text : List ℕ) (limit rounds : ℕ) (ts : List Token)
    → tokenise limit rounds (new_tokeniser text) ≡ ok ts
    → Lexes text 0 ts
tokenise-Lexes text limit rounds ts h =
    Gives-of_eq (λ out. Lexes text 0 out) (tokenise limit rounds (new_tokeniser text)) ts
      (rw (new_tokeniser-place text) (
        Gives-map (LexesFrom text [] 0) (λ out. Lexes text 0 out) _ (λ out (new, e, l). rw e l)
          (tokenise-LexesFrom text limit rounds [] 0 (omega arith))))
      h
