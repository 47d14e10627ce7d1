-- ===== src/Tokeniser/Endless.antt =====
-- Where the loops of IgnoreComment and ReadString of tokeniser/tokeniser.go do not end: they test for
-- characters, and not for the end of the text.
use qk.Prelude.{
  ℕ, zero, suc, ◌≤◌, ◌≡◌, refl, ap, ◌∙◌, Bool, true, false, not, ◌&&◌, ◌||◌, List, [], ◌∷◌, ◌==◌,
  length, arith,
}
use qk.Tokeniser.Token.{Token}
use qk.Tokeniser.Cursor.{code_at}
use qk.Tokeniser.Read.{endless}
use qk.Tokeniser.Text.{read_string_loop, read_string, skip_line, ignore_comment}
use qk.Tokeniser.Step.{slash_turn, string_turn, switch_turn, turn, after_turn, tokenise}
use qk.Tokeniser.Place.{place, Reads, inc-place, incs-place, code_at-behind}
use qk.Tokeniser.Lexemes.{All}
use qk.Tokeniser.Lexemes.Numbers.{next-place}
use qk.Tokeniser.Lexemes.Texts.{handle_escape-plain, read_string_loop-more}
use qk.Tokeniser.Lexemes.Gaps.{skip_line-more}

-- A character that the loop of a comment passes.
abbrev pub not_newline : ℕ → Bool
not_newline c = not (c == b'\n')

-- A character that the loop of a string passes, and not as a part of an escape.
abbrev pub is_passed : ℕ → Bool
is_passed c = not (c == b'"' || c == b'\n') && not (c == b'\\')

-- Some characters that pass a test, and then the end of the text.
abbrev pub ToEnd : List ℕ → (ℕ → Bool) → ℕ → List ℕ → Type 0
ToEnd text test p s = (q : ℕ) × Reads text p s q × All test s × (length text ≤ q)

-- The characters up to the end pass the test, and the places behind the text do if the code point 0
-- does.
first-passes :
    (text : List ℕ) (test : ℕ → Bool) (p : ℕ) (s : List ℕ)
    → test 0 ≡ true
    → ToEnd text test p s
    → test (code_at text p) ≡ true
first-passes text test p [] z (q, r, a, l) = rw (code_at-behind text p (omega arith)) z
first-passes text test p (c ∷ s) z (q, r, a, l) = rw r.0 a.0

rest-ToEnd :
    (text : List ℕ) (test : ℕ → Bool) (p : ℕ) (s : List ℕ)
    → ToEnd text test p s
    → (s' : List ℕ) × ToEnd text test (suc p) s'
rest-ToEnd text test p [] (q, r, a, l) = ([], (suc p, refl, tt, omega arith))
rest-ToEnd text test p (c ∷ s) (q, r, a, l) = (s, (q, r.1, a.1, l))

skip_line-endless :
    (text : List ℕ) (ts : List Token) (limit p : ℕ) (s : List ℕ)
    → ToEnd text not_newline p s
    → (q : ℕ) × (skip_line limit (place text ts p) ≡ endless (place text ts q))
unfolding skip_line
skip_line-endless text ts zero p s h = (p, refl)
skip_line-endless text ts (suc limit) p s h =
    let (s', h') = rest-ToEnd text not_newline p s h in
    let (q, e) = skip_line-endless text ts limit (suc p) s' h' in
    let other : (code_at text p == b'\n') ≡ false =
      ground (arith, first-passes text not_newline p s refl h) in
    (
      q,
      skip_line-more limit (place text ts p) other
          ∙ (ap (skip_line limit) (inc-place text ts p) ∙ e),
    )

passed-other : (c : ℕ) → is_passed c ≡ true → (c == b'"' || c == b'\n') ≡ false
passed-other c h = ground arith

passed-unescaped : (c : ℕ) → is_passed c ≡ true → (c == b'\\') ≡ false
passed-unescaped c h = ground arith

read_string_loop-endless :
    (text : List ℕ) (ts : List Token) (limit p : ℕ) (s : List ℕ)
    → ToEnd text is_passed p s
    → (q : ℕ) × (read_string_loop limit (place text ts p) ≡ endless (place text ts q))
unfolding read_string_loop
read_string_loop-endless text ts zero p s h = (p, refl)
read_string_loop-endless text ts (suc limit) p s h =
    let (s', h') = rest-ToEnd text is_passed p s h in
    let (q, e) = read_string_loop-endless text ts limit (suc p) s' h' in
    let k = first-passes text is_passed p s refl h in
    (
      q,
      rw (read_string_loop-more limit (place text ts p) (passed-other (code_at text p) k)) (
          rw (handle_escape-plain (place text ts p) (passed-unescaped (code_at text p) k))
            (rw (inc-place text ts p) (rw e))),
    )

comment_turn-endless :
    (text : List ℕ) (ts : List Token) (limit p : ℕ) (s : List ℕ)
    → code_at text p ≡ b'/'
    → code_at text (suc p) ≡ b'/'
    → ToEnd text not_newline (suc (suc p)) s
    → (q : ℕ) × (turn limit (place text ts p) ≡ endless (place text ts q))
unfolding turn switch_turn slash_turn ignore_comment
comment_turn-endless text ts limit p s c d h =
    let (q, e) = skip_line-endless text ts limit (suc (suc p)) s h in
    (
      q,
      rw c (
          rw (next-place text ts p) (
            rw d
              (rw (incs-place text ts p (suc (suc p)) (b'/' ∷ b'/' ∷ []) (c, (d, refl))) (rw e)))),
    )

string_turn-endless :
    (text : List ℕ) (ts : List Token) (limit p : ℕ) (s : List ℕ)
    → code_at text p ≡ b'"'
    → ToEnd text is_passed (suc p) s
    → (q : ℕ) × (turn limit (place text ts p) ≡ endless (place text ts q))
unfolding turn switch_turn string_turn read_string
string_turn-endless text ts limit p s c h =
    let (q, e) = read_string_loop-endless text ts limit (suc p) s h in
    (q, rw c (rw (inc-place text ts p) (rw e)))

tokenise-endless :
    (text : List ℕ) (ts : List Token) (limit rounds p : ℕ)
    → ((q : ℕ) × (turn limit (place text ts p) ≡ endless (place text ts q)))
    → (q : ℕ) × (tokenise limit rounds (place text ts p) ≡ endless (place text ts q))
unfolding tokenise after_turn
tokenise-endless text ts limit zero p h = (p, refl)
tokenise-endless text ts limit (suc rounds) p (q, e) = (q, rw e)

-- From a line comment that the end of the text ends, and no newline, Tokenise never returns,
-- whatever the rounds that its loops are given.
pub tokenise-open_comment :
    (text : List ℕ) (ts : List Token) (limit rounds p : ℕ) (s : List ℕ)
    → code_at text p ≡ b'/'
    → code_at text (suc p) ≡ b'/'
    → ToEnd text not_newline (suc (suc p)) s
    → (q : ℕ) × (tokenise limit rounds (place text ts p) ≡ endless (place text ts q))
tokenise-open_comment text ts limit rounds p s c d h =
    tokenise-endless text ts limit rounds p (comment_turn-endless text ts limit p s c d h)

-- From a string that reaches the end of the text with no quote, newline or backslash Tokenise
-- never returns, whatever the rounds that its loops are given.
pub tokenise-open_string :
    (text : List ℕ) (ts : List Token) (limit rounds p : ℕ) (s : List ℕ)
    → code_at text p ≡ b'"'
    → ToEnd text is_passed (suc p) s
    → (q : ℕ) × (tokenise limit rounds (place text ts p) ≡ endless (place text ts q))
tokenise-open_string text ts limit rounds p s c h =
    tokenise-endless text ts limit rounds p (string_turn-endless text ts limit p s c h)
