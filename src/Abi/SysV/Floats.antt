-- ===== src/Abi/SysV/Floats.antt =====
-- codegen/llvm/abi_sysvamd64.go: unions of floats. Every member appends to the fields of its
-- eightbyte, though the members share their bytes.
use mathlib.Core.List.{append-nil, append_assoc}
use qk.Prelude.{
  false, ℕ, suc, String, none, some, ◌>>=◌, List, [], ◌∷◌, ◌++◌, length, replicate, ◌≡◌, refl, ◌∙◌,
  ap, sym,
}
use qk.Types.Primitive.{Primitive, f32}
use qk.Types.Syntax.{Fields, primitive, union_type, field_nil, field_cons}
use qk.Abi.Align.{align_to}
use qk.Abi.Layout.{Machine, layout, AliasLayout, layout_of, union_layout}
use qk.Abi.Chunk.{direct, chunk_float, chunk_float_pair}
use qk.Abi.SysV.{
  Names, Classes, class_sse, classify, classify_union, has_unaligned_field, unaligned_union,
  sse_chunk, sysv_param_chunks,
}

-- A union member of type f32 for each name.
abbrev pub float_members : List String → Fields
float_members [] = field_nil
float_members (n ∷ ns) = field_cons n (primitive f32) (float_members ns)

union_layout-floats :
    (al : AliasLayout) (e : Machine) (ns : List String)
    → union_layout al e (float_members ns) (layout 4 4) ≡ some (layout 4 4)
unfolding layout_of
union_layout-floats al e [] = refl
union_layout-floats al e (n ∷ ns) = union_layout-floats al e ns

unaligned_union-floats :
    (k : Names) (e : Machine) (ns : List String)
    → unaligned_union k e (float_members ns) 0 ≡ some false
unfolding has_unaligned_field layout_of
unaligned_union-floats k e [] = refl
unaligned_union-floats k e (n ∷ ns) = rw (unaligned_union-floats k e ns)

abbrev floats_at : List Primitive → Classes
floats_at ps = record { classes = class_sse ∷ []; floats = ps ∷ [] }

replicate-append :
    (ps : List Primitive) (n : ℕ)
    → (ps ++ f32 ∷ []) ++ replicate n f32 ≡ ps ++ replicate (suc n) f32
replicate-append ps n = append_assoc ps (f32 ∷ []) (replicate n f32)

classify_union-floats :
    (k : Names) (e : Machine) (ns : List String) (ps : List Primitive)
    → classify_union k e (float_members ns) 0 (floats_at ps)
      ≡ some (floats_at (ps ++ replicate (length ns) f32))
unfolding classify
classify_union-floats k e [] ps = ap (λ x. some (floats_at x)) (sym (append-nil ps))
classify_union-floats k e (n ∷ ns) ps =
    classify_union-floats k e ns (ps ++ f32 ∷ [])
    ∙ ap (λ x. some (floats_at x)) (replicate-append ps (length ns))

-- The chunk of a union of f32 members goes by how many there are.
float_union :
    (k : Names) (e : Machine) (m u n : String) (ns : List String)
    → sysv_param_chunks k e (union_type m u (float_members (n ∷ ns)))
      ≡ (sse_chunk (replicate (suc (length ns)) f32) >>= λ t. some (direct t 0 4 ∷ []))
unfolding sysv_param_chunks layout_of has_unaligned_field classify align_to
float_union k e m u n ns =
    rw (union_layout-floats k.layout_at e ns)
      (rw (unaligned_union-floats k e ns) (rw (classify_union-floats k e ns (f32 ∷ [])) refl))

-- A union of one f32 member is passed as float and one of two as <2 x float>, in one chunk of 4
-- bytes at offset 0; with three members or more there are no chunks, which is a panic.
pub sysv_param_chunks-float_union :
    (k : Names) (e : Machine) (m u n n' n'' : String) (ns : List String)
    → (sysv_param_chunks k e (union_type m u (float_members (n ∷ [])))
        ≡ some (direct chunk_float 0 4 ∷ []))
      × (sysv_param_chunks k e (union_type m u (float_members (n ∷ n' ∷ [])))
          ≡ some (direct chunk_float_pair 0 4 ∷ []))
      × (sysv_param_chunks k e (union_type m u (float_members (n ∷ n' ∷ n'' ∷ ns))) ≡ none)
unfolding sse_chunk
sysv_param_chunks-float_union k e m u n n' n'' ns = (
  float_union k e m u n [],
  float_union k e m u n (n' ∷ []),
  float_union k e m u n (n' ∷ n'' ∷ ns),
)
