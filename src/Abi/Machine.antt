-- ===== src/Abi/Machine.antt =====
-- codegen/llvm/target.go and codegen/llvm/foreign_abi.go: the widths and the calling convention of a
-- target triple.
pub mod Convention
use qk.Prelude.{
  ℕ, ◌/◌, Bool, true, false, ◌||◌, Option, none, some, ◌>>=◌, List, [], ◌∷◌, if◌then◌else◌,
}
use qk.Target.{
  codes, lower, contains_text, contains_any, one_of, effective_triple, arch, pointer_bits,
}
use qk.Abi.Layout.{Machine}
use qk.Abi.Generator.{Generator, aarch64, win32, sysv_i386, win64, sysv_amd64}
use Prim.Native.String.{String}

-- `pointerBytes`; an unknown target is a panic.
unfoldable pub pointer_bytes_of : List ℕ → List ℕ → Option ℕ
unfolding pointer_bits
pointer_bytes_of host triple = pointer_bits host triple >>= λ bits. some (bits / 8)

abbrev pub i386_names : List String
i386_names = "386" ∷ ("i386" ∷ ("i486" ∷ ("i586" ∷ ("i686" ∷ ("x86" ∷ [])))))

abbrev pub amd64_names : List String
amd64_names = "x86_64" ∷ ("amd64" ∷ [])

abbrev pub windows_names : List String
windows_names = "windows" ∷ ("win32" ∷ ("mingw" ∷ ("msvc" ∷ [])))

-- `scalar64Align`.
unfoldable pub scalar64_align_of : List ℕ → List ℕ → ℕ
unfolding one_of arch contains_any lower effective_triple
scalar64_align_of host triple =
    if one_of i386_names (arch host triple)
    then if contains_any windows_names (lower (effective_triple host triple)) then 8 else 4
    else 8

unfoldable pub machine_of : List ℕ → List ℕ → Machine
unfolding pointer_bytes_of scalar64_align_of
machine_of host triple = record {
  pointer_bytes = pointer_bytes_of host triple;
  scalar64_align = scalar64_align_of host triple;
}

-- `foreignABIGenerator`.
unfoldable pub generator_of : List ℕ → List ℕ → Option Generator
unfolding one_of arch contains_any contains_text lower effective_triple
generator_of host triple =
    let target = lower (effective_triple host triple) in
    if contains_any ("aarch64" ∷ ("arm64" ∷ [])) target
    then some (aarch64 (contains_text (codes "linux") target))
    else if one_of i386_names (arch host triple)
    then if contains_any windows_names target then some win32 else some sysv_i386
    else if one_of amd64_names (arch host triple)
    then if contains_any ("windows" ∷ ("win32" ∷ [])) target then some win64 else some sysv_amd64
    else none
