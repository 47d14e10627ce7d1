-- ===== src/Abi/Tests.antt =====
-- codegen/llvm: runs of the definitions on small aggregates, and the theorems at these.
use qk.Prelude.{
  ℕ, String, Option, none, some, true, false, List, [], ◌∷◌, replicate, Returns, Holds, ◌≡◌, refl,
  inr, arith,
}
use qk.Types.Primitive.{u8, i64, f32, f64, is_float}
use qk.Types.Syntax.{
  enum_type, Variants, variant_cons, variant_nil, Ty, Cells, primitive, struct_type, union_type,
  array, field_nil, field_cons, untagged,
}
use qk.Abi.Align.{align_to, and_not, RoundsUp, align_to-RoundsUp}
use qk.Abi.Layout.{Machine, layout, layout_of, type_size_align}
use qk.Abi.Layout.Bounds.{IsMachine, IsLayout, alias_layout-IsLayout, type_size_align-IsLayout}
use qk.Abi.Chunk.{chunk_int, chunk_floats, chunk_float, chunk_float_pair, AbiChunk, direct}
use qk.Abi.SysV.{
  Names, class_none, names, classify, has_unaligned_field, sysv_param_chunks, sysv_requires_sret,
}
use qk.Abi.SysV.Bounds.{Sized, IsCField}
use qk.Abi.SysV.Chunks.{Covers, classify_in_bounds, sysv_param_chunks-requires_sret}
use qk.Abi.SysV.Natural.{IsNatural, sysv_requires_sret-natural}
use qk.Abi.SysV.Floats.{float_members, sysv_param_chunks-float_union}
use qk.Abi.Aarch64
use qk.Abi.Generator.{
  win32, sysv_amd64, Generator, aarch64, Emitter, foreign_return_chunks, foreign_return_type,
  return_void, is_aggregate,
}
use qk.Target.{codes}
use qk.Types.Underlying.{underlying}
use qk.Types.TaggedUnion.{
  raw_struct, raw_payload, storage_payload, tagged_union_repr, tagged_storage,
}
use qk.Abi.Layout.TaggedUnion.{tagged_union_repr-layout}
use qk.Abi.Machine.{machine_of, generator_of}
use qk.Abi.Machine.Convention.{machine_of-generator_of}
use qk.Abi.Generator.Laws.{foreign_return_type-aarch64_floats}

abbrev amd64 : Machine
amd64 = record { pointer_bytes = some 8; scalar64_align = 8 }

amd64-IsMachine : IsMachine amd64
amd64-IsMachine = record { pointer_width = λ p h. ground arith; scalar_align = inr refl }

abbrev no_cells : Cells
no_cells i = none

abbrev amd64_names : Names
amd64_names = names no_cells amd64 3

-- A 64-bit integer, a float and a byte.
abbrev mixed : Ty
mixed =
    struct_type
      (field_cons "a" (primitive i64)
        (field_cons "b" (primitive f32) (field_cons "c" (primitive u8) field_nil)))
      false untagged

abbrev mixed_chunks : List AbiChunk
mixed_chunks = direct (chunk_int 64) 0 8 ∷ (direct (chunk_int 64) 8 8 ∷ [])

align_to-RoundsUp_example : RoundsUp 13 8 (align_to 13 8)
align_to-RoundsUp_example = align_to-RoundsUp 13 8 (inr (inr refl))

mixed-layout : layout_of amd64_names.layout_at amd64 mixed ≡ some (layout 16 8)
unfolding layout_of align_to and_not
mixed-layout = refl

type_size_align-IsLayout_example : IsLayout (layout 16 8)
unfolding type_size_align layout_of align_to and_not
type_size_align-IsLayout_example =
    type_size_align-IsLayout amd64 amd64-IsMachine no_cells 3 mixed {l = layout 16 8} refl

names-IsLayout : (m n : String) (r : Option ℕ) → Holds IsLayout (amd64_names.layout_at m n r)
unfolding names
names-IsLayout m n r = alias_layout-IsLayout amd64 amd64-IsMachine no_cells 3 m n r

mixed-IsCField : IsCField mixed
unfolding IsCField
mixed-IsCField = (λ e. cc, (λ e. cc, (λ e. cc, tt)))

classify_in_bounds_example : Returns (Sized 2) (
    classify amd64_names amd64 mixed 0
      (record { classes = replicate 2 class_none; floats = replicate 2 [] }))
classify_in_bounds_example =
    classify_in_bounds amd64_names amd64 amd64-IsMachine names-IsLayout refl mixed mixed-IsCField
      {l = layout 16 8} mixed-layout

mixed_no_sret : sysv_requires_sret amd64_names amd64 mixed ≡ some false
unfolding sysv_requires_sret layout_of align_to and_not has_unaligned_field
mixed_no_sret = refl

mixed_param_chunks : sysv_param_chunks amd64_names amd64 mixed ≡ some mixed_chunks
unfolding sysv_param_chunks layout_of align_to and_not has_unaligned_field classify is_float
mixed_param_chunks = refl

sysv_param_chunks-requires_sret_example : Covers 16 0 mixed_chunks
sysv_param_chunks-requires_sret_example =
    sysv_param_chunks-requires_sret amd64_names amd64 amd64-IsMachine names-IsLayout refl mixed
      mixed-IsCField {l = layout 16 8} mixed-layout false {chunks = mixed_chunks} mixed_no_sret
      mixed_param_chunks

mixed-IsNatural : IsNatural mixed
unfolding IsNatural
mixed-IsNatural = (tt, (tt, (tt, tt)))

sysv_requires_sret-natural_example : sysv_requires_sret amd64_names amd64 mixed ≡ some false
sysv_requires_sret-natural_example =
    sysv_requires_sret-natural amd64_names amd64 amd64-IsMachine names-IsLayout mixed
      {l = layout 16 8} mixed-IsNatural mixed-layout

abbrev float_union : List String → Option (List AbiChunk)
float_union ns = sysv_param_chunks amd64_names amd64 (union_type "m" "U" (float_members ns))

sysv_param_chunks-float_union_example :
    (float_union ("a" ∷ []) ≡ some (direct chunk_float 0 4 ∷ []))
    × (float_union ("a" ∷ "b" ∷ []) ≡ some (direct chunk_float_pair 0 4 ∷ []))
    × (float_union ("a" ∷ "b" ∷ "c" ∷ []) ≡ none)
sysv_param_chunks-float_union_example =
    sysv_param_chunks-float_union amd64_names amd64 "m" "U" "a" "b" "c" []

abbrev emitter : Generator → Emitter
emitter g = record { machine = amd64; cells = no_cells; fuel = 3; generator = some g }

-- A struct of an array of two f64 and of one f64.
abbrev three_doubles : Ty
three_doubles =
    struct_type
      (field_cons "xy" (array (primitive f64) 2) (field_cons "z" (primitive f64) field_nil)) false
      untagged

foreign_return_type-aarch64_floats_example :
    (foreign_return_chunks (emitter (aarch64 true)) three_doubles
      ≡ some (direct (chunk_floats 3 f64) 0 24 ∷ []))
    × (foreign_return_type (emitter (aarch64 true)) three_doubles ≡ some return_void)
unfolding underlying layout_of align_to and_not Aarch64.homogeneous_float_aggregate Aarch64.visit
    is_aggregate
foreign_return_type-aarch64_floats_example =
    foreign_return_type-aarch64_floats (emitter (aarch64 true)) true three_doubles 3 (layout 24 8)
      amd64-IsMachine refl refl refl refl (omega arith) (omega arith)

machine_of-generator_of_example :
    machine_of (codes "amd64-linux") (codes "I686-pc-windows-gnu")
    ≡ record { pointer_bytes = some 4; scalar64_align = 8 }
unfolding generator_of
machine_of-generator_of_example =
    machine_of-generator_of (codes "amd64-linux") (codes "I686-pc-windows-gnu") win32 refl refl

-- With MinGW's name the 64-bit target gets the System V convention, and the 32-bit one Windows'.
mingw_generators :
    (generator_of (codes "amd64-linux") (codes "x86_64-w64-mingw32") ≡ some sysv_amd64)
    × (generator_of (codes "amd64-linux") (codes "i686-w64-mingw32") ≡ some win32)
unfolding generator_of
mingw_generators = (refl, refl)

-- A tagged union with a positional payload and a variant with none.
abbrev tag : Ty
tag = enum_type "m" "Tag" "" ("A" ∷ ("B" ∷ [])) ("0" ∷ ("1" ∷ []))

abbrev variants : Variants
variants =
    variant_cons "A" "0" (field_cons "0" (primitive i64) field_nil)
      (variant_cons "B" "1" field_nil variant_nil)

tagged_union_repr-layout_example :
    (layout_of amd64_names.layout_at amd64 (raw_struct false tag variants)
      ≡ layout_of amd64_names.layout_at amd64 (tagged_storage tag variants false))
    × (layout_of amd64_names.layout_at amd64 (union_type "" "" (raw_payload variants))
        ≡ layout_of amd64_names.layout_at amd64 (union_type "" "" (storage_payload variants)))
unfolding tagged_union_repr tagged_storage underlying
tagged_union_repr-layout_example =
    tagged_union_repr-layout amd64_names.layout_at amd64 no_cells 3 tag variants false
      {r = raw_struct false tag variants} refl

-- The positional field gets a name.
raw_payload_example :
    raw_payload variants
    ≡ field_cons "A"
        (struct_type (field_cons "_0" (primitive i64) field_nil) false untagged)
        field_nil
unfolding raw_payload
raw_payload_example = refl
