-- ===== src/Tokeniser/Lexemes/Order.antt =====
-- The places of the tokens that Tokenise of tokeniser/tokeniser.go gives.
use qk.Prelude.{ℕ, ◌≤◌, ◌<◌, ◌≡◌, refl, List, [], ◌∷◌, ◌++◌, length, arith}
use qk.Tokeniser.Token.{Token, eof}
use qk.Tokeniser.Cursor.{new_tokeniser}
use qk.Tokeniser.Read.{ok}
use qk.Tokeniser.Step.{tokenise}
use qk.Tokeniser.Place.{locate, token_at}
use qk.Tokeniser.Lexemes.{Part, gap, lexeme, Lexes, end, part}
use qk.Tokeniser.Lexemes.Tokens.{Part-bounds, tokenise-Lexes}

-- Tokens that begin at an offset or behind it and follow each other in the text, each with the lines
-- and columns of its two ends; the last one is that of the end of the file, the others are not empty.
abbrev pub Placed : List ℕ → ℕ → List Token → Type 0
Placed text p [] = ⊥
Placed text p (t ∷ []) =
    (p ≤ t.loc.offset)
    × (t.kind ≡ eof)
    × (t.loc.offset ≤ length text)
    × (t.loc.end_offset ≡ t.loc.offset)
    × (t.loc.lc ≡ locate text t.loc.offset)
    × (t.loc.end_lc ≡ locate text t.loc.end_offset)
Placed text p (t ∷ (t' ∷ ts)) =
    (p ≤ t.loc.offset)
    × (t.loc.offset < t.loc.end_offset)
    × (t.loc.end_offset ≤ length text)
    × (t.loc.lc ≡ locate text t.loc.offset)
    × (t.loc.end_lc ≡ locate text t.loc.end_offset)
    × Placed text t.loc.end_offset (t' ∷ ts)

Placed-earlier :
    (text : List ℕ) (p q : ℕ) (ts : List Token) → p ≤ q → Placed text q ts → Placed text p ts
Placed-earlier text p q [] h k = k
Placed-earlier text p q (t ∷ []) h (o, k, l, e, a, b) = (omega arith, k, l, e, a, b)
Placed-earlier text p q (t ∷ (t' ∷ ts)) h (o, k, l, a, b, r) = (omega arith, k, l, a, b, r)

token-Placed :
    (text : List ℕ) (p : ℕ) (t : Token) (ts : List Token)
    → p ≤ t.loc.offset
    → t.loc.offset < t.loc.end_offset
    → t.loc.end_offset ≤ length text
    → t.loc.lc ≡ locate text t.loc.offset
    → t.loc.end_lc ≡ locate text t.loc.end_offset
    → Placed text t.loc.end_offset ts
    → Placed text p (t ∷ ts)
token-Placed text p t [] a b c d e r = absurd r
token-Placed text p t (t' ∷ ts) a b c d e r = (a, b, c, d, e, r)

Part-Placed :
    {text : List ℕ} {p q : ℕ} {new : List Token} (rest : List Token)
    → Part text p q new
    → p ≤ length text
    → Placed text q rest
    → Placed text p (new ++ rest)
Part-Placed {text} rest (gap p q g) h r =
    Placed-earlier text p q rest (omega (arith, (Part-bounds (gap p q g) h).0)) r
Part-Placed {text} rest (lexeme p q s k v base m o l w) h r =
    token-Placed text p (token_at text p q k v base) rest (omega arith) o l refl refl r

Lexes-Placed :
    {text : List ℕ} {p : ℕ} {ts : List Token} → Lexes text p ts → p ≤ length text → Placed text p ts
Lexes-Placed (end p z) h = (omega arith, refl, h, refl, refl, refl)
Lexes-Placed (part p q new rest w l) h = Part-Placed rest w h (Lexes-Placed l (Part-bounds w h).1)

-- Where Tokenise returns tokens, each begins at the end of the one before it or behind, is not
-- empty and ends in the text, and its lines and columns are those of its offsets; the last one is
-- empty and marks the end of the file.
pub tokenise-Placed :
    (text : List ℕ) (limit rounds : ℕ) (ts : List Token)
    → tokenise limit rounds (new_tokeniser text) ≡ ok ts
    → Placed text 0 ts
tokenise-Placed text limit rounds ts h =
    Lexes-Placed (tokenise-Lexes text limit rounds ts h) (omega arith)
