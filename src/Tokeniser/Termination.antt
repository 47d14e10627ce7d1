-- ===== src/Tokeniser/Termination.antt =====
-- When the loops of Tokenise of tokeniser/tokeniser.go end.
mod Rounds
unfoldable pub use Rounds.*
use qk.Prelude.{
  ℕ, zero, suc, ◌+◌, ◌≤◌, ◌<◌, ◌≡◌, ◌≢◌, refl, sym, ◌∙◌, false, List, [], ◌++◌, ◌==◌, length, arith,
}
use qk.Tokeniser.Token.{Token}
use qk.Tokeniser.Cursor.{Tokeniser, new_tokeniser, code_at, peek, next}
use qk.Tokeniser.Read.{Read, ok, failed, endless}
use qk.Tokeniser.Step.{Turn, more, switch_turn, turn, after_turn, tokenise}
use qk.Tokeniser.Place.{new_tokeniser-place, place}
use qk.Tokeniser.Lexemes.{Part}
use qk.Tokeniser.Lexemes.Numbers.{next-place}
use qk.Tokeniser.Lexemes.Turned.{Turned, passes, stays, ends, starves}
use qk.Tokeniser.Lexemes.Turns.{turn-Turned}
use qk.Tokeniser.Lexemes.Tokens.{Part-bounds}
use qk.Tokeniser.Settles.{Settles, fails}

next-other :
    (text : List ℕ) (ts : List Token) (p : ℕ)
    → code_at text (suc p) ≢ b'\n'
    → (next (place text ts p) == b'\n') ≡ false
next-other text ts p h = rw (next-place text ts p) (ground arith)

-- At a backslash that no newline follows a round changes nothing.
turn-stuck :
    (text : List ℕ) (ts : List Token) (limit p : ℕ)
    → code_at text p ≡ b'\\'
    → code_at text (suc p) ≢ b'\n'
    → turn limit (place text ts p) ≡ ok (more (place text ts p))
unfolding turn switch_turn
turn-stuck text ts limit p h k = rw h (rw (next-other text ts p k))

-- At a backslash that no newline follows Tokenise makes rounds for ever, each from the same state.
pub tokenise-stuck :
    (text : List ℕ) (ts : List Token) (limit rounds p : ℕ)
    → code_at text p ≡ b'\\'
    → code_at text (suc p) ≢ b'\n'
    → tokenise limit rounds (place text ts p) ≡ endless (place text ts p)
unfolding tokenise after_turn
tokenise-stuck text ts limit zero p h k = refl
tokenise-stuck text ts limit (suc rounds) p h k =
    rw (turn-stuck text ts limit p h k) (tokenise-stuck text ts limit rounds p h k)

-- A run of the loop that ends, or that is at a backslash which no newline follows.
abbrev pub Ends : Read (List Token) → Type 0
Ends (ok ts) = Unit
Ends (failed l e) = Unit
Ends (endless u) = (peek u ≡ b'\\') × (next u ≢ b'\n')

after_turn-Ends :
    {text : List ℕ} {ts : List Token} {p : ℕ} {r : Read Turn}
    (go_on : Tokeniser → Read (List Token))
    → Turned text ts p r
    → Settles r
    → ((q : ℕ) (new : List Token) → Part text p q new → Ends (go_on (place text (ts ++ new) q)))
    → (code_at text p ≡ b'\\' → code_at text (suc p) ≢ b'\n' → Ends (go_on (place text ts p)))
    → Ends (after_turn go_on r)
unfolding after_turn
after_turn-Ends go_on (passes q new u e w) s h k = rw e (h q new w)
after_turn-Ends go_on (stays c n) s h k = k c n
after_turn-Ends go_on (ends out z e) s h k = tt
after_turn-Ends go_on (Turned.fails l e) s h k = tt
after_turn-Ends go_on (starves u) s h k = elim s [ ]

tokenise-Ends_from :
    (text : List ℕ) (n limit rounds : ℕ) (ts : List Token) (p : ℕ)
    → length text ≡ suc n
    → code_at text n ≡ b'\n'
    → n < limit
    → p ≤ length text
    → length text < rounds + p
    → Ends (tokenise limit rounds (place text ts p))
unfolding tokenise
tokenise-Ends_from text n limit zero ts p e z l b f = absurd (omega arith)
tokenise-Ends_from text n limit (suc rounds) ts p e z l b f =
    after_turn-Ends (λ u. tokenise limit rounds u) (turn-Turned text ts p limit b)
      (turn-Settles text ts n z limit p e l)
      (λ q new w.
        let (o, m) = Part-bounds w b in
        tokenise-Ends_from text n limit rounds (ts ++ new) q e z l m (omega arith))
      (λ c k.
        rw (tokenise-stuck text ts limit rounds p c k)
          (c, (λ f. k (sym (next-place text ts p) ∙ f))))

-- For a text that ends in a newline, with a limit for the inner loops of at least the text's
-- length and more rounds than the text's length, Tokenise returns tokens or an error, or it stands
-- at a backslash which no newline follows.
pub tokenise-Ends :
    (text : List ℕ) (n limit rounds : ℕ)
    → length text ≡ suc n
    → code_at text n ≡ b'\n'
    → n < limit
    → length text < rounds
    → Ends (tokenise limit rounds (new_tokeniser text))
tokenise-Ends text n limit rounds e z l h =
    rw (new_tokeniser-place text)
      (tokenise-Ends_from text n limit rounds [] 0 e z l (omega arith) (omega arith))
