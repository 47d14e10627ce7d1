-- ===== src/Tokeniser/Place.antt =====
-- The states of tokeniser/tokeniser.go that stand where they say: at an offset of a text, with its
-- line and its column. Its moves and its tokens, seen from there.
use qk.Prelude.{
  ℕ, zero, suc, ◌+◌, ◌≤◌, ◌<◌, ◌≡◌, ◌≢◌, refl, ap, ◌∙◌, false, List, [], ◌∷◌, ◌++◌, length, ==_refl,
  arith,
}
use qk.Tokeniser.Token.{TokenKind, eof, LineCol, Location, Token, token_width}
use qk.Tokeniser.Cursor.{
  Tokeniser, new_tokeniser, code_at, advance, inc, incs, widen_loc, add_token, token_loc, is_eof,
  get_loc,
}

-- The line and the column of an offset.
unfoldable pub locate : List ℕ → ℕ → LineCol
unfolding advance code_at
locate text zero = record { line = 1; col = 1 }
locate text (suc p) = advance (code_at text p) (locate text p)

-- The state at an offset, with the tokens before it.
abbrev pub place : List ℕ → List Token → ℕ → Tokeniser
place text ts p = record {
  pos = p;
  line = (locate text p).line;
  col = (locate text p).col;
  text = text;
  tokens = ts;
}

abbrev pub span : List ℕ → ℕ → ℕ → Location
span text p q = record { lc = locate text p; end_lc = locate text q; offset = p; end_offset = q }

-- The token of the characters between two offsets.
abbrev pub token_at : List ℕ → ℕ → ℕ → TokenKind → List ℕ → ℕ → Token
token_at text p q k value base = record {
  kind = k;
  value = value;
  loc = span text p q;
  number_base = base;
}

-- The characters from one offset up to another one.
abbrev pub Reads : List ℕ → ℕ → List ℕ → ℕ → Type 0
Reads text p [] q = p ≡ q
Reads text p (c ∷ s) q = (code_at text p ≡ c) × Reads text (suc p) s q

pub Reads-append :
    (text : List ℕ) (p q r : ℕ) (s s' : List ℕ)
    → Reads text p s q
    → Reads text q s' r
    → Reads text p (s ++ s') r
Reads-append text p q r [] s' h k = rw h k
Reads-append text p q r (c ∷ s) s' h k = (h.0, Reads-append text (suc p) q r s s' h.1 k)

pub Reads-split :
    (text : List ℕ) (p r : ℕ) (s s' : List ℕ)
    → Reads text p (s ++ s') r
    → (q : ℕ) × Reads text p s q × Reads text q s' r
Reads-split text p r [] s' h = (p, refl, h)
Reads-split text p r (c ∷ s) s' h =
    let (q, k, l) = Reads-split text (suc p) r s s' h.1 in (q, (h.0, k), l)

pub code_at-behind : (text : List ℕ) (p : ℕ) → length text ≤ p → code_at text p ≡ 0
unfolding code_at
code_at-behind [] p h = refl
code_at-behind (c ∷ text) zero h = absurd (omega arith)
code_at-behind (c ∷ text) (suc p) h = code_at-behind text p (omega arith)

pub lt-of_code_at : (text : List ℕ) (p : ℕ) → code_at text p ≢ 0 → p < length text
lt-of_code_at text p h = ground (arith, code_at-behind text p)

pub lt-of_char : (text : List ℕ) (p c : ℕ) → code_at text p ≡ suc c → p < length text
lt-of_char text p c h = lt-of_code_at text p (ground arith)

pub inc-place :
    (text : List ℕ) (ts : List Token) (p : ℕ) → inc (place text ts p) ≡ place text ts (suc p)
unfolding inc locate
inc-place text ts p = ground arith

pub incs-place :
    (text : List ℕ) (ts : List Token) (p q : ℕ) (s : List ℕ)
    → Reads text p s q
    → incs (length s) (place text ts p) ≡ place text ts q
unfolding incs
incs-place text ts p q [] h = rw h
incs-place text ts p q (c ∷ s) h =
    ap (incs (length s)) (inc-place text ts p) ∙ incs-place text ts (suc p) q s h.1

pub Reads-length : (text : List ℕ) (p q : ℕ) (s : List ℕ) → Reads text p s q → p + length s ≡ q
Reads-length text p q [] h = omega arith
Reads-length text p q (c ∷ s) h = omega (arith, Reads-length text (suc p) q s h.1)

widen_loc-suc :
    (text : List ℕ) (b p n : ℕ)
    → p < length text
    → widen_loc (suc n) text (span text b p) ≡ widen_loc n text (span text b (suc p))
unfolding widen_loc locate
widen_loc-suc text b p n h = ground arith

pub widen_loc-span :
    (text : List ℕ) (b p q : ℕ) (s : List ℕ)
    → Reads text p s q
    → q ≤ length text
    → widen_loc (length s) text (span text b p) ≡ span text b q
unfolding widen_loc
widen_loc-span text b p q [] h k = rw h
widen_loc-span text b p q (c ∷ s) h k =
    widen_loc-suc text b p (length s) (omega (arith, Reads-length text (suc p) q s h.1))
    ∙ widen_loc-span text b (suc p) q s h.1 k

-- The token of a character or more that the tokeniser has passed.
pub token_loc-passed :
    (text : List ℕ) (ts : List Token) (k : TokenKind) (p q : ℕ)
    → p < q
    → token_loc k (get_loc (place text ts p)) (place text ts q) ≡ span text p q
unfolding token_loc
token_loc-passed text ts k p q h = ground arith

-- The token of a symbol that it has before it.
pub token_loc-ahead :
    (text : List ℕ) (ts : List Token) (k : TokenKind) (p q : ℕ) (s : List ℕ)
    → is_eof k ≡ false
    → Reads text p s q
    → token_width k ≡ length s
    → q ≤ length text
    → token_loc k (get_loc (place text ts p)) (place text ts p) ≡ span text p q
unfolding token_loc
token_loc-ahead text ts k p q s e h w b =
    rw (==_refl p) (rw e (rw w (widen_loc-span text p p q s h b)))

pub add_token-passed :
    (text : List ℕ) (ts : List Token) (k : TokenKind) (v : List ℕ) (base p q : ℕ)
    → p < q
    → add_token k (get_loc (place text ts p)) v base (place text ts q)
      ≡ place text (ts ++ token_at text p q k v base ∷ []) q
unfolding add_token
add_token-passed text ts k v base p q h = rw (token_loc-passed text ts k p q h)

pub add_token-ahead :
    (text : List ℕ) (ts : List Token) (k : TokenKind) (v : List ℕ) (base p q : ℕ) (s : List ℕ)
    → is_eof k ≡ false
    → Reads text p s q
    → token_width k ≡ length s
    → q ≤ length text
    → add_token k (get_loc (place text ts p)) v base (place text ts p)
      ≡ place text (ts ++ token_at text p q k v base ∷ []) p
unfolding add_token
add_token-ahead text ts k v base p q s e h w b = rw (token_loc-ahead text ts k p q s e h w b)

pub add_token-eof :
    (text : List ℕ) (ts : List Token) (p : ℕ)
    → (add_token eof (get_loc (place text ts p)) [] 0 (place text ts p)).tokens
      ≡ ts ++ token_at text p p eof [] 0 ∷ []
unfolding add_token token_loc
add_token-eof text ts p = rw (==_refl p)

pub new_tokeniser-place : (text : List ℕ) → new_tokeniser text ≡ place text [] 0
unfolding locate
new_tokeniser-place text = refl
