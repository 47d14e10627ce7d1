-- ===== src/Abi/Generator/Laws.antt =====
-- codegen/llvm/foreign_abi.go: how the return slot and the return chunks of a convention go together.
use qk.Prelude.{
  sym, ap, ◌∙◌, leb, ltb, some_inj, zero, suc, ◌⊎◌, ℕ, ◌≤◌, ◌<◌, true, false, Bool, not, ◌||◌,
  Option, none, some, ◌>>=◌, List, [], ◌∷◌, ◌≡◌, refl, arith,
}
use qk.Types.Primitive.{f64}
use qk.Types.Syntax.{Ty, Cells}
use qk.Types.Underlying.{underlying}
use qk.Abi.Layout.{Machine, Layout, layout_of, alias_layout}
use qk.Abi.Chunk.{AbiChunk, chunk_floats, direct}
use qk.Abi.Aarch64
use qk.Abi.Aarch64.Floats.{homogeneous_float_aggregate-size}
use qk.Abi.SysV.{names}
use qk.Abi.Layout.Bounds.{IsMachine}
use qk.Abi.Win32
use qk.Abi.Win64
use qk.Abi.Generator.{
  Generator, aarch64, win32, sysv_i386, win64, sysv_amd64, Emitter, size_align,
  aggregate_return_chunks, generator_requires_sret, foreign_return_chunks, foreign_return_type,
  return_void, is_aggregate, foreign_return_uses_sret,
}

-- A chunk that is passed in registers.
abbrev pub is_direct : AbiChunk → Bool
is_direct c = elim c.offset [ none ↦ false | some o ↦ true ]

abbrev pub any_direct : List AbiChunk → Bool
any_direct [] = false
any_direct (c ∷ cs) = is_direct c || any_direct cs

win32_agrees : (l : Layout) → any_direct (Win32.return_chunks l) ≡ not (Win32.requires_sret l)
unfolding Win32.return_chunks Win32.requires_sret
win32_agrees l = ground arith

win64_agrees : (l : Layout) → any_direct (Win64.param_chunks l) ≡ not (Win64.requires_sret l)
unfolding Win64.param_chunks Win64.requires_sret
win64_agrees l = ground arith

by_layout :
    (m : Option Layout) (sret : Layout → Bool) (pieces : Layout → List AbiChunk) (b : Bool)
    (chunks : List AbiChunk)
    → ((l : Layout) → any_direct (pieces l) ≡ not (sret l))
    → (m >>= λ l. some (sret l)) ≡ some b
    → (m >>= λ l. some (pieces l)) ≡ some chunks
    → any_direct chunks ≡ not b
by_layout none sret pieces b chunks agree h k = cc
by_layout (some l) sret pieces b chunks agree h k = rw (← some_inj k) (rw (← some_inj h) (agree l))

three_or_four : (n : ℕ) → 2 < n → n ≤ 4 → (n ≡ 3) ⊎ (n ≡ 4)
three_or_four n lo hi = omega arith

-- The conventions of 32-bit x86 and of Windows.
abbrev pub is_windows_or_i386 : Generator → Bool
is_windows_or_i386 win32 = true
is_windows_or_i386 win64 = true
is_windows_or_i386 sysv_i386 = true
is_windows_or_i386 _ = false

-- On Windows and on i386, where requiresSRet and aggregateReturnChunks both answer for a type,
-- there is a direct return chunk exactly when requiresSRet is false.
pub generator_requires_sret-agrees :
    (g : Generator) (e : Emitter) (t : Ty) (b : Bool) (chunks : List AbiChunk)
    → is_windows_or_i386 g ≡ true
    → generator_requires_sret g e t ≡ some b
    → aggregate_return_chunks g e t ≡ some chunks
    → any_direct chunks ≡ not b
unfolding generator_requires_sret aggregate_return_chunks
generator_requires_sret-agrees (aarch64 linux) e t b chunks w h k = cc
generator_requires_sret-agrees win32 e t b chunks w h k =
    by_layout (size_align e t) Win32.requires_sret Win32.return_chunks b chunks win32_agrees h k
generator_requires_sret-agrees sysv_i386 e t b chunks w h k = ground arith
generator_requires_sret-agrees win64 e t b chunks w h k =
    by_layout (size_align e t) Win64.requires_sret Win64.param_chunks b chunks win64_agrees h k
generator_requires_sret-agrees sysv_amd64 e t b chunks w h k = cc

names-layout_at :
    (cells : Cells) (m : Machine) (fuel : ℕ)
    → (names cells m fuel).layout_at ≡ alias_layout cells m fuel
unfolding names
names-layout_at cells m zero = refl
names-layout_at cells m (suc fuel) = refl

-- On AArch64, with pointers of 4 or 8 bytes and 64-bit scalars aligned to 4 or 8, every aggregate
-- that homogeneousFloatAggregate counts as three or four f64 has one direct return chunk of that
-- many floats, and foreignABIReturnType is void for it.
pub foreign_return_type-aarch64_floats :
    (e : Emitter) (linux : Bool) (t : Ty) (n : ℕ) (l : Layout)
    → IsMachine e.machine
    → e.generator ≡ some (aarch64 linux)
    → is_aggregate (underlying e.cells e.fuel t) ≡ true
    → Aarch64.homogeneous_float_aggregate e.cells e.fuel (underlying e.cells e.fuel t)
      ≡ some (f64, n)
    → size_align e (underlying e.cells e.fuel t) ≡ some l
    → 2 < n
    → n ≤ 4
    → (foreign_return_chunks e t ≡ some (direct (chunk_floats n f64) 0 l.size ∷ []))
      × (foreign_return_type e t ≡ some return_void)
unfolding foreign_return_type foreign_return_uses_sret foreign_return_chunks generator_requires_sret
    aggregate_return_chunks Aarch64.return_chunks Aarch64.in_registers Aarch64.requires_sret
foreign_return_type-aarch64_floats e linux t n l ok g a h k lo hi =
    let u = underlying e.cells e.fuel t in
    let k' : layout_of (alias_layout e.cells e.machine e.fuel) e.machine u ≡ some l =
      ap (λ al. layout_of al e.machine u) (sym (names-layout_at e.cells e.machine e.fuel)) ∙ k in
    let large = homogeneous_float_aggregate-size e.machine ok e.cells e.fuel u n l h k' in
    let few : leb n 4 ≡ true = ground arith in
    let big : ltb 16 l.size ≡ true = ground arith in
    (
      rw a (rw g (rw k (rw h (rw (few, Aarch64.return_chunks) refl)))),
      rw a (rw g (rw k (rw (big, Aarch64.requires_sret) refl))),
    )
