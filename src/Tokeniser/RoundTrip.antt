-- ===== src/Tokeniser/RoundTrip.antt =====
-- What tokeniser/tokeniser.go reads back: the spellings of symbols, the digits of numbers and the
-- characters of strings.
use qk.Prelude.{
  ℕ, zero, suc, ◌<◌, ◌≡◌, refl, ap, ap₂, ◌∙◌, true, List, [], ◌∷◌, ◌++◌, length, arith,
}
use qk.Tokeniser.Token.{
  TokenKind, Token, eof, newline, keyword, identifier, number, float, string, c_string, char,
  symbol_text,
}
use qk.Tokeniser.Cursor.{Tokeniser, new_tokeniser, code_at, peek, incs, add_token}
use qk.Tokeniser.Read.{ok}
use qk.Tokeniser.Text.{escape_of, handle_escape, read_string_loop, read_string}
use qk.Tokeniser.Step.{
  more, symbol, take_symbol, symbol_turn, minus_turn, slash_turn, dots_turn, switch_turn, turn,
}
use qk.Tokeniser.Place.{place, locate, token_at, Reads, Reads-split, inc-place, incs-place}
use qk.Tokeniser.Lexemes.{Escaped, plain, escape, Body, nil, cons, spelling, is_symbol}
use qk.Tokeniser.Lexemes.Texts.{
  handle_escape-plain, handle_escape-escaped, read_string_loop-done, read_string_loop-more,
}

handle_escape_complete :
    (text : List ℕ) (ts : List Token) (p q c : ℕ) (s : List ℕ)
    → Escaped s c
    → Reads text p s q
    → handle_escape (place text ts p) ≡ ok (c, place text ts q)
unfolding handle_escape
handle_escape_complete text ts p q c s (plain c' h) r =
    rw (handle_escape-plain (place text ts p) (rw r.0 h)) (
      ap₂ (λ (x : ℕ) (u : Tokeniser). ok (x, u)) r.0 (inc-place text ts p ∙ ap (place text ts) r.1))
handle_escape_complete text ts p q c s (escape b d c' h e) r =
    rw (handle_escape-escaped (place text ts p) (rw r.0 h)) (
      rw
        (ap (λ (u : Tokeniser). escape_of (peek u)) (inc-place text ts p)
          ∙ (ap escape_of r.1.0 ∙ e))
        (ap (λ (u : Tokeniser). ok (c', u)) (incs-place text ts p q (b ∷ d ∷ []) r)))

read_string_loop_complete :
    (text : List ℕ) (ts : List Token) (limit p q : ℕ) (s v : List ℕ)
    → Body s v
    → Reads text p s q
    → code_at text q ≡ b'"'
    → length v < limit
    → read_string_loop limit (place text ts p) ≡ ok (v, place text ts q)
unfolding read_string_loop
read_string_loop_complete text ts zero p q s v b r z l = absurd (omega arith)
read_string_loop_complete text ts (suc limit) p q s v nil r z l =
    rw r (rw (read_string_loop-done limit (place text ts q) (rw z refl)))
read_string_loop_complete text ts (suc limit) p q s v (cons d c s' s'' v' h e b) r z l =
    let (m, r', r'') = Reads-split text p q (d ∷ s') s'' r in
    rw (read_string_loop-more limit (place text ts p) (rw r.0 h)) (
      rw (handle_escape_complete text ts p m c (d ∷ s') e r')
        (rw (read_string_loop_complete text ts limit m q s'' v' b r'' z (omega arith))))

-- Every string that is written with escapes as the description of strings allows is read as the
-- characters that it stands for, with more rounds than it has characters.
pub read_string_complete :
    (text : List ℕ) (ts : List Token) (limit p q : ℕ) (s v : List ℕ)
    → Body s v
    → Reads text p (b'"' ∷ (s ++ b'"' ∷ [])) q
    → length v < limit
    → read_string limit (place text ts p) ≡ ok (v, place text ts q)
unfolding read_string
read_string_complete text ts limit p q s v b r l =
    let (m, r', r'') = Reads-split text (suc p) q s (b'"' ∷ []) r.1 in
    rw r.0 (
      rw (inc-place text ts p) (
        rw (read_string_loop_complete text ts limit (suc p) m s v b r' r''.0 l) (
          rw r''.0
            (ap (λ (u : Tokeniser). ok (v, u)) (inc-place text ts m ∙ ap (place text ts) r''.1)))))

-- The spelling of every kind of symbol with a space behind it, at the start of a text, is read in
-- one round as one token of that kind, which takes the spelling and no more.
pub turn-spelling :
    (limit : ℕ) (k : TokenKind) (rest : List ℕ)
    → is_symbol k ≡ true
    → turn limit (new_tokeniser (spelling k ++ b' ' ∷ rest))
      ≡ ok (
          more (
            place
              (spelling k ++ b' ' ∷ rest)
              (token_at (spelling k ++ b' ' ∷ rest) 0 (length (spelling k)) k [] 0 ∷ [])
              (length (spelling k))))
unfolding turn switch_turn minus_turn slash_turn dots_turn symbol_turn take_symbol symbol add_token
    incs symbol_text is_symbol locate
turn-spelling limit eof rest h = absurd (cc)
turn-spelling limit newline rest h = ground arith
turn-spelling limit keyword rest h = absurd (cc)
turn-spelling limit identifier rest h = absurd (cc)
turn-spelling limit number rest h = absurd (cc)
turn-spelling limit float rest h = absurd (cc)
turn-spelling limit string rest h = absurd (cc)
turn-spelling limit c_string rest h = absurd (cc)
turn-spelling limit char rest h = absurd (cc)
turn-spelling limit k rest h = ground arith
