-- ===== src/Abi/Layout.antt =====
-- codegen/llvm/foreign_abi.go: `typeSizeAlign`, the size and the alignment of a type's
-- representation. `none` is a panic: a type with no representation, or a target whose pointer
-- width is not known.
pub mod Bounds
pub mod TaggedUnion
use qk.Prelude.{ℕ, zero, suc, ◌+◌, ◌*◌, max, true, false, String, Option, none, some, ◌>>=◌}
use qk.Types.Primitive.{
  Primitive, i8, i16, i32, i64, u8, u16, u32, u64, f32, f64, isz, usz, void, bool,
}
use qk.Types.Syntax.{
  Ty, Fields, Cells, primitive, defined, alias_ref, struct_type, union_type, enum_type, flags_type,
  pointer, slice, array, trait_pointer, field_nil, field_cons,
}
use qk.Types.Underlying.{target}
use qk.Abi.Align.{align_to}

-- What the emitter knows of its target: `pointerBytes`, which panics where the target is not
-- recognised, and `scalar64Align`.
pub record Machine : Type 0 where
  pub pointer_bytes : Option ℕ
  pub scalar64_align : ℕ

pub record Layout : Type 0 where
  pub size : ℕ
  pub align : ℕ

abbrev pub layout : ℕ → ℕ → Layout
layout s a = record { size = s; align = a }

-- What an alias reference leads to.
abbrev pub AliasLayout : Type 0
AliasLayout = String → String → Option ℕ → Option Layout

-- one pointer, and two
unfoldable pub word : Machine → Option Layout
word e = do p ← e.pointer_bytes; some (layout p p)

unfoldable pub word_pair : Machine → Option Layout
word_pair e = do p ← e.pointer_bytes; some (layout (p * 2) p)

unfoldable pub primitive_layout : Machine → Primitive → Option Layout
unfolding word
primitive_layout e void = some (layout 0 1)
primitive_layout e i8 = some (layout 1 1)
primitive_layout e u8 = some (layout 1 1)
primitive_layout e bool = some (layout 1 1)
primitive_layout e i16 = some (layout 2 2)
primitive_layout e u16 = some (layout 2 2)
primitive_layout e i32 = some (layout 4 4)
primitive_layout e u32 = some (layout 4 4)
primitive_layout e f32 = some (layout 4 4)
primitive_layout e isz = word e
primitive_layout e usz = word e
primitive_layout e i64 = some (layout 8 e.scalar64_align)
primitive_layout e u64 = some (layout 8 e.scalar64_align)
primitive_layout e f64 = some (layout 8 e.scalar64_align)

-- One field of a struct behind the fields before it, whose end and greatest alignment are `acc`.
unfoldable pub place : Layout → Layout → Layout
place acc l = layout (align_to acc.size l.align + l.size) (max acc.align l.align)

-- One member of a union beside the members before it.
unfoldable pub overlay : Layout → Layout → Layout
overlay acc l = layout (max acc.size l.size) (max acc.align l.align)

-- The tail padding of a struct or a union.
unfoldable pub pad : Layout → Layout
pad acc = layout (align_to acc.size acc.align) acc.align

unfoldable mutual
  unfolding word word_pair primitive_layout place overlay pad

  pub layout_of : AliasLayout → Machine → Ty → Option Layout
  layout_of al e (primitive p) = primitive_layout e p
  layout_of al e (defined m n u g as') = layout_of al e u
  layout_of al e (alias_ref m n r) = al m n r
  layout_of al e (pointer t m) = word e
  layout_of al e (trait_pointer t m) = word_pair e
  layout_of al e (slice t m) = word_pair e
  layout_of al e (array t n) = do l ← layout_of al e t; some (layout (l.size * n) l.align)
  layout_of al e (enum_type m n i vs ws) = some (layout 4 4)
  layout_of al e (flags_type p vs ws) = primitive_layout e p
  layout_of al e (struct_type fs true i) = do s ← packed_size al e fs 0; some (layout s 1)
  layout_of al e (struct_type fs false i) = do
    acc ← struct_layout al e fs (layout 0 1)
    some (pad acc)
  layout_of al e (union_type m n fs) = do acc ← union_layout al e fs (layout 0 1); some (pad acc)
  layout_of al e _ = none

  pub packed_size : AliasLayout → Machine → Fields → ℕ → Option ℕ
  packed_size al e field_nil s = some s
  packed_size al e (field_cons n t fs) s = do l ← layout_of al e t; packed_size al e fs (s + l.size)

  pub struct_layout : AliasLayout → Machine → Fields → Layout → Option Layout
  struct_layout al e field_nil acc = some acc
  struct_layout al e (field_cons n t fs) acc = do
    l ← layout_of al e t
    struct_layout al e fs (place acc l)

  pub union_layout : AliasLayout → Machine → Fields → Layout → Option Layout
  union_layout al e field_nil acc = some acc
  union_layout al e (field_cons n t fs) acc = do
    l ← layout_of al e t
    union_layout al e fs (overlay acc l)

-- The alias cells, on fuel. An alias with no target has no representation.
unfoldable pub alias_layout : Cells → Machine → ℕ → AliasLayout
unfolding target
alias_layout cells e zero m n r = none
alias_layout cells e (suc fuel) m n r = elim (target cells r) [
  | none ↦ none
  | some t ↦ layout_of (alias_layout cells e fuel) e t
]

-- `typeSizeAlign`.
unfoldable pub type_size_align : Cells → Machine → ℕ → Ty → Option Layout
type_size_align cells e fuel t = layout_of (alias_layout cells e fuel) e t
