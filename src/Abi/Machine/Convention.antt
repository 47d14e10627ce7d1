-- ===== src/Abi/Machine/Convention.antt =====
-- codegen/llvm/target.go and codegen/llvm/foreign_abi.go: the widths that go with a convention.
use mathlib.Core.Path.{subst}
use qk.Prelude.{
  ℕ, String, some_inj, ◌/◌, ◌++◌, Bool, true, false, ◌||◌, Option, none, some, ◌>>=◌, List, [], ◌∷◌,
  ◌≡◌, ◌∙◌, refl, ◌⊎◌, inl, inr, arith, Bool-cases, if◌then◌else◌,
}
use qk.Target.{
  codes, codes_eq, codes_eq→eq, lower, contains_any, one_of, effective_triple, arch, pointer_bits,
  arch_32, arch_64,
}
use qk.Abi.Layout.{Machine}
use qk.Abi.Layout.Bounds.{IsMachine}
use qk.Abi.Generator.{Generator, aarch64, win32, sysv_i386, win64, sysv_amd64}
use qk.Abi.Machine.{
  pointer_bytes_of, scalar64_align_of, machine_of, generator_of, i386_names, amd64_names,
  windows_names,
}

width_cases :
    (b c : Bool) (p : ℕ)
    → ((if b then some 32 else if c then some 64 else none) >>= λ bits. some (bits / 8)) ≡ some p
    → (p ≡ 4) ⊎ (p ≡ 8)
width_cases b c p h = ground arith

abbrev align_choice : Bool → Bool → ℕ
align_choice b c = if b then if c then 8 else 4 else 8

align_cases : (b c : Bool) → (align_choice b c ≡ 4) ⊎ (align_choice b c ≡ 8)
align_cases b c = ground arith

-- Whatever the triple, pointers have 4 or 8 bytes where their width is known, and 64-bit scalars
-- are aligned to 4 or 8.
pub machine_of-IsMachine : (host triple : List ℕ) → IsMachine (machine_of host triple)
unfolding machine_of pointer_bytes_of scalar64_align_of pointer_bits
machine_of-IsMachine host triple = record {
  pointer_width = λ p h.
      width_cases (one_of arch_32 (arch host triple)) (one_of arch_64 (arch host triple)) p h;
  scalar_align = align_cases (one_of i386_names (arch host triple)) _;
}

or_second : (p q : Bool) → (p || (q || false)) ≡ true → p ≡ false → q ≡ true
or_second p q h e = ground arith

-- An architecture of x86-64 is one of those with pointers of 64 bits, and none of those with 32.
Is64 : List ℕ → Type 0
Is64 a = (one_of arch_32 a ≡ false) × (one_of arch_64 a ≡ true)

amd64_is_64 : (a : List ℕ) → one_of amd64_names a ≡ true → Is64 a
unfolding one_of codes_eq Is64
amd64_is_64 a h = elim (Bool-cases (codes_eq (codes "x86_64") a)) [
  | inl e ↦ subst Is64 (codes_eq→eq (codes "x86_64") a e) (refl, refl)
  | inr e ↦
      subst Is64 (codes_eq→eq (codes "amd64") a (or_second (codes_eq (codes "x86_64") a) _ h e))
        (refl, refl)
]

one_of-append : (ns ms : List String) (a : List ℕ) → one_of ns a ≡ true → one_of (ns ++ ms) a ≡ true
unfolding one_of
one_of-append [] ms a h = ground arith
one_of-append (n ∷ ns) ms a h = ground (arith, one_of-append ns ms a)

abbrev other_32 : List String
other_32 =
    "arm"
    ∷ ("armv6"
        ∷ ("armv7"
            ∷ ("armv7a"
                ∷ ("armv7l"
                    ∷ ("thumb"
                        ∷ ("thumbv7"
                            ∷ ("thumbv7a"
                                ∷ ("mips"
                                    ∷ ("mipsel"
                                        ∷ ("powerpc"
                                            ∷ ("ppc" ∷ ("riscv32" ∷ ("wasm32" ∷ [])))))))))))))

i386_is_32 : (a : List ℕ) → one_of i386_names a ≡ true → one_of arch_32 a ≡ true
i386_is_32 a h = one_of-append i386_names other_32 a h

-- What the choice of a convention says of the tests that it makes.
Chosen : Generator → Bool → Bool → Bool → Type 0
Chosen (aarch64 linux) i w x = Unit
Chosen sysv_amd64 i w x = (i ≡ false) × (x ≡ true)
Chosen win64 i w x = (i ≡ false) × (x ≡ true)
Chosen sysv_i386 i w x = (i ≡ true) × (w ≡ false)
Chosen win32 i w x = (i ≡ true) × (w ≡ true)

choice :
    (arm l i w x v : Bool) (g : Generator)
    → (if arm
        then some (aarch64 l)
        else if i
        then if w then some win32 else some sysv_i386
        else if x
        then if v then some win64 else some sysv_amd64
        else none)
      ≡ some g
    → Chosen g i w x
unfolding Chosen
choice true l i w x v g h = subst (λ g. Chosen g i w x) (some_inj h) tt
choice false l true true x v g h = subst (λ g. Chosen g true true x) (some_inj h) (refl, refl)
choice false l true false x v g h = subst (λ g. Chosen g true false x) (some_inj h) (refl, refl)
choice false l false w true true g h = subst (λ g. Chosen g false w true) (some_inj h) (refl, refl)
choice false l false w true false g h = subst (λ g. Chosen g false w true) (some_inj h) (refl, refl)
choice false l false w false v g h = cc

-- The pointer width and the alignment of 64-bit scalars of each x86 convention.
abbrev pub x86_machine : Generator → Option Machine
x86_machine (aarch64 linux) = none
x86_machine sysv_amd64 = some (record { pointer_bytes = some 8; scalar64_align = 8 })
x86_machine win64 = some (record { pointer_bytes = some 8; scalar64_align = 8 })
x86_machine sysv_i386 = some (record { pointer_bytes = some 4; scalar64_align = 4 })
x86_machine win32 = some (record { pointer_bytes = some 4; scalar64_align = 8 })

abbrev windows : List ℕ → List ℕ → Bool
windows host triple = contains_any windows_names (lower (effective_triple host triple))

module _ (host triple : List ℕ) where
  bytes_64 : one_of amd64_names (arch host triple) ≡ true → pointer_bytes_of host triple ≡ some 8
  unfolding pointer_bytes_of pointer_bits Is64
  bytes_64 h = let s = amd64_is_64 (arch host triple) h in rw (s.0, s.1) refl

  bytes_32 : one_of i386_names (arch host triple) ≡ true → pointer_bytes_of host triple ≡ some 4
  unfolding pointer_bytes_of pointer_bits
  bytes_32 h = rw (i386_is_32 (arch host triple) h) refl

  align_of_other : one_of i386_names (arch host triple) ≡ false → scalar64_align_of host triple ≡ 8
  unfolding scalar64_align_of
  align_of_other h = rw h refl

  align_of_i386 :
      (w : Bool)
      → one_of i386_names (arch host triple) ≡ true
      → windows host triple ≡ w
      → scalar64_align_of host triple ≡ align_choice true w
  unfolding scalar64_align_of
  align_of_i386 w h k = rw (h, k) refl

  machine_eq :
      {p : Option ℕ} {a : ℕ}
      → pointer_bytes_of host triple ≡ p
      → scalar64_align_of host triple ≡ a
      → machine_of host triple ≡ record { pointer_bytes = p; scalar64_align = a }
  unfolding machine_of
  machine_eq h k = λ z. record { pointer_bytes = h z; scalar64_align = k z }

  chosen :
      (g : Generator)
      → generator_of host triple ≡ some g
      → Chosen g
          (one_of i386_names (arch host triple))
          (windows host triple)
          (one_of amd64_names (arch host triple))
  unfolding generator_of
  chosen g h = choice _ _ _ _ _ _ g h

  -- Where foreignABIGenerator selects a convention of x86 for a triple, pointerBytes and
  -- scalar64Align of the triple are those of the convention: 8 and 8 for x86-64, 4 and 4 for
  -- System V i386, 4 and 8 for Windows i386.
  pub machine_of-generator_of :
      (g : Generator) {e : Machine}
      → generator_of host triple ≡ some g
      → x86_machine g ≡ some e
      → machine_of host triple ≡ e
  unfolding Chosen
  machine_of-generator_of (aarch64 l) h k = cc
  machine_of-generator_of sysv_amd64 h k =
      let c = chosen sysv_amd64 h in machine_eq (bytes_64 c.1) (align_of_other c.0) ∙ some_inj k
  machine_of-generator_of win64 h k =
      let c = chosen win64 h in machine_eq (bytes_64 c.1) (align_of_other c.0) ∙ some_inj k
  machine_of-generator_of sysv_i386 h k =
      let c = chosen sysv_i386 h in
      machine_eq (bytes_32 c.0) (align_of_i386 false c.0 c.1) ∙ some_inj k
  machine_of-generator_of win32 h k =
      let c = chosen win32 h in machine_eq (bytes_32 c.0) (align_of_i386 true c.0 c.1) ∙ some_inj k
