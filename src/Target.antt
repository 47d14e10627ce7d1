-- ===== src/Target.antt =====
-- target/target.go: what a target triple says. A triple is a list of ASCII codes, and `host` is what
-- `runtime.GOARCH + "-" + runtime.GOOS` is.
use Prim.Native.Char.{code}
use Prim.Native.String.{String}
use qk.Prelude.{
  ℕ, ◌+◌, ◌≡◌, refl, Bool, true, false, ◌&&◌, ◌||◌, Option, none, some, List, [], ◌∷◌, leb, ◌==◌,
  if◌then◌else◌, arith,
}

abbrev pub codes : String → List ℕ
codes String.[] = []
codes (String.◌∷◌ c s) = code c ∷ codes s

-- `strings.ToLower` on ASCII.
unfoldable pub lower : List ℕ → List ℕ
lower [] = []
lower (c ∷ s) = (if leb b'A' c && leb c b'Z' then c + 32 else c) ∷ lower s

unfoldable pub codes_eq : List ℕ → List ℕ → Bool
codes_eq [] [] = true
codes_eq (a ∷ s) (b ∷ t) = (a == b) && codes_eq s t
codes_eq _ _ = false

-- `strings.HasPrefix` and `strings.Contains`.
unfoldable pub starts_with : List ℕ → List ℕ → Bool
starts_with [] s = true
starts_with (p ∷ ps) [] = false
starts_with (p ∷ ps) (c ∷ s) = (p == c) && starts_with ps s

unfoldable pub contains_text : List ℕ → List ℕ → Bool
unfolding starts_with
contains_text p [] = starts_with p []
contains_text p (c ∷ s) = starts_with p (c ∷ s) || contains_text p s

unfoldable pub contains_any : List String → List ℕ → Bool
unfolding contains_text
contains_any [] s = false
contains_any (p ∷ ps) s = contains_text (codes p) s || contains_any ps s

-- A `case` over names.
unfoldable pub one_of : List String → List ℕ → Bool
unfolding codes_eq
one_of [] s = false
one_of (n ∷ ns) s = codes_eq (codes n) s || one_of ns s

-- `EffectiveTriple`.
unfoldable pub effective_triple : List ℕ → List ℕ → List ℕ
effective_triple host [] = host
effective_triple host (c ∷ s) = c ∷ s

-- `strings.Cut(triple, "-")`, the part before the dash, or all.
unfoldable pub before_dash : List ℕ → List ℕ
before_dash [] = []
before_dash (c ∷ s) = let rest = before_dash s in if c == b'-' then [] else c ∷ rest

-- `Arch`.
unfoldable pub arch : List ℕ → List ℕ → List ℕ
unfolding before_dash lower effective_triple
arch host triple = before_dash (lower (effective_triple host triple))

abbrev pub arch_32 : List String
arch_32 =
    "386"
    ∷ ("i386"
        ∷ ("i486"
            ∷ ("i586"
                ∷ ("i686"
                    ∷ ("x86"
                        ∷ ("arm"
                            ∷ ("armv6"
                                ∷ ("armv7"
                                    ∷ ("armv7a"
                                        ∷ ("armv7l"
                                            ∷ ("thumb"
                                                ∷ ("thumbv7"
                                                    ∷ ("thumbv7a"
                                                        ∷ ("mips"
                                                            ∷ ("mipsel"
                                                            ∷ ("powerpc"
                                                            ∷ ("ppc"
                                                            ∷ ("riscv32"
                                                            ∷ ("wasm32" ∷ [])))))))))))))))))))

abbrev pub arch_64 : List String
arch_64 =
    "x86_64"
    ∷ ("amd64"
        ∷ ("aarch64"
            ∷ ("arm64"
                ∷ ("mips64"
                    ∷ ("mips64el"
                        ∷ ("powerpc64"
                            ∷ ("powerpc64le"
                                ∷ ("ppc64"
                                    ∷ ("ppc64le"
                                        ∷ ("riscv64"
                                            ∷ ("s390x" ∷ ("sparcv9" ∷ ("wasm64" ∷ [])))))))))))))

-- `PointerBits`.
unfoldable pub pointer_bits : List ℕ → List ℕ → Option ℕ
unfolding one_of arch
pointer_bits host triple =
    if one_of arch_32 (arch host triple)
    then some 32
    else if one_of arch_64 (arch host triple)
    then some 64
    else none

-- `CCharSigned`.
unfoldable pub c_char_signed : List ℕ → List ℕ → Bool
unfolding one_of arch contains_any lower effective_triple
c_char_signed host triple =
    let target = lower (effective_triple host triple) in
    if one_of
      ("arm"
        ∷ ("armv6"
            ∷ ("armv7"
                ∷ ("armv7a"
                    ∷ ("armv7l"
                        ∷ ("thumb" ∷ ("thumbv7" ∷ ("thumbv7a" ∷ ("aarch64" ∷ ("arm64" ∷ []))))))))))
      (arch host target)
    then contains_any
        ("apple" ∷ ("darwin" ∷ ("macos" ∷ ("windows" ∷ ("mingw" ∷ ("msvc" ∷ ("win32" ∷ [])))))))
        target
    else true

pub codes_eq→eq : (s t : List ℕ) → codes_eq s t ≡ true → s ≡ t
unfolding codes_eq
codes_eq→eq [] [] h = refl
codes_eq→eq [] (b ∷ t) h = ground arith
codes_eq→eq (a ∷ s) [] h = ground arith
codes_eq→eq (a ∷ s) (b ∷ t) h = ground (arith, codes_eq→eq s t)
