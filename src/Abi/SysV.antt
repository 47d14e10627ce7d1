-- ===== src/Abi/SysV.antt =====
-- codegen/llvm/abi_sysvamd64.go: the System V AMD64 classes of an aggregate's eightbytes, and the
-- chunks in which it is passed and returned. `none` is a panic.
pub mod Bounds
pub mod Classify
pub mod Chunks
pub mod Floats
pub mod Natural
use qk.Prelude.{
  ℕ, zero, suc, ◌+◌, ◌-◌, ◌*◌, ◌/◌, ◌%◌, max, min, true, false, Bool, ◌||◌, not, String, Option,
  none, some, ◌>>=◌, List, [], ◌∷◌, ◌++◌, ltb, ◌==◌, if◌then◌else◌, get_elem?, set?, replicate,
  length,
}
use qk.Types.Primitive.{Primitive, f32, f64, is_float}
use qk.Types.Syntax.{
  Ty, Fields, Cells, primitive, defined, alias_ref, struct_type, union_type, enum_type, flags_type,
  pointer, slice, array, field_nil, field_cons,
}
use qk.Types.Underlying.{target}
use qk.Abi.Align.{align_to}
use qk.Abi.Layout.{Machine, Layout, AliasLayout, primitive_layout, layout_of, alias_layout}
use qk.Abi.Chunk.{
  AbiChunk, chunk_int, chunk_float, chunk_double, chunk_float_pair, ChunkType, byval, indirect,
  direct,
}

pub data AbiClass : Type 0 where
  class_none class_sse class_integer : AbiClass

-- The slices `classes` and `floats`, one entry for each eightbyte.
pub record Classes : Type 0 where
  pub classes : List AbiClass
  pub floats : List (List Primitive)

-- What the aliases of a type lead to, for each of the recursions.
pub record Names : Type 0 where
  pub layout_at : AliasLayout
  pub classify_at : String → String → Option ℕ → ℕ → Classes → Option Classes
  pub unaligned_at : String → String → Option ℕ → ℕ → Option Bool

-- The body of the loop of `markSysVAggregateClass`.
unfoldable pub mark_at : ℕ → AbiClass → List AbiClass → Option (List AbiClass)
unfolding set?
mark_at i class_integer cs = set? cs i class_integer
mark_at i c cs = get_elem? cs i >>= λ old. elim old [ class_none ↦ set? cs i c | _ ↦ some cs ]

unfoldable pub mark_loop : ℕ → ℕ → AbiClass → List AbiClass → Option (List AbiClass)
unfolding mark_at
mark_loop zero i c cs = some cs
mark_loop (suc n) i c cs = mark_at i c cs >>= λ cs'. mark_loop n (i + 1) c cs'

-- `markSysVAggregateClass`.
unfoldable pub mark_class : ℕ → ℕ → AbiClass → Classes → Option Classes
unfolding mark_loop
mark_class offset size c st = do
  cs ← mark_loop ((offset + size - 1) / 8 + 1 - offset / 8) (offset / 8) c st.classes
  some (record st { classes = cs })

-- `floats[base/8] = append(floats[base/8], t)`.
unfoldable pub add_float : ℕ → Primitive → Classes → Option Classes
unfolding set?
add_float base p st = do
  old ← get_elem? st.floats (base / 8)
  fs ← set? st.floats (base / 8) (old ++ p ∷ [])
  some (record st { floats = fs })

-- `for i := 0; i < n; i++`, from `i` on with `n` rounds left.
unfoldable pub rounds : ℕ → ℕ → (ℕ → Classes → Option Classes) → Classes → Option Classes
rounds zero i body st = some st
rounds (suc n) i body st = body i st >>= λ st'. rounds n (i + 1) body st'

unfoldable pub classify_primitive : Machine → Primitive → ℕ → Classes → Option Classes
unfolding mark_class add_float primitive_layout is_float
classify_primitive e p base st = do
  l ← primitive_layout e p
  st' ← mark_class base l.size (if is_float p then class_sse else class_integer) st
  if is_float p then add_float base p st' else some st'

-- Where a field of a struct starts.
abbrev pub field_offset : Bool → ℕ → Layout → ℕ
field_offset packed offset l = if packed then offset else align_to offset l.align

unfoldable mutual
  unfolding classify_primitive mark_class rounds

  -- `classifySysVAggregate`.
  pub classify : Names → Machine → Ty → ℕ → Classes → Option Classes
  classify k e (struct_type fs packed i) base st = classify_struct k e fs packed base 0 st
  classify k e (union_type m n fs) base st = classify_union k e fs base st
  classify k e (slice t m) base st = do
    p ← e.pointer_bytes
    st' ← mark_class base p class_integer st
    mark_class (base + p) p class_integer st'
  classify k e (array t n) base st = do
    l ← layout_of k.layout_at e t
    rounds n 0 (λ i s. classify k e t (base + i * l.size) s) st
  classify k e (pointer t m) base st = mark_class base 8 class_integer st
  classify k e (enum_type m n i vs ws) base st = mark_class base 4 class_integer st
  classify k e (flags_type p vs ws) base st = do
    l ← primitive_layout e p
    mark_class base l.size class_integer st
  classify k e (primitive p) base st = classify_primitive e p base st
  classify k e (defined m n u g as') base st = classify k e u base st
  classify k e (alias_ref m n r) base st = k.classify_at m n r base st
  classify k e _ base st = none

  pub classify_struct : Names → Machine → Fields → Bool → ℕ → ℕ → Classes → Option Classes
  classify_struct k e field_nil packed base offset st = some st
  classify_struct k e (field_cons n t fs) packed base offset st = do
    l ← layout_of k.layout_at e t
    st' ← classify k e t (base + field_offset packed offset l) st
    classify_struct k e fs packed base (field_offset packed offset l + l.size) st'

  pub classify_union : Names → Machine → Fields → ℕ → Classes → Option Classes
  classify_union k e field_nil base st = some st
  classify_union k e (field_cons n t fs) base st = do
    st' ← classify k e t base st
    classify_union k e fs base st'

unfoldable mutual
  -- `hasUnalignedAggregateField`.
  pub has_unaligned_field : Names → Machine → Ty → ℕ → Option Bool
  has_unaligned_field k e (struct_type fs packed i) base = unaligned_struct k e fs packed base 0
  has_unaligned_field k e (union_type m n fs) base = unaligned_union k e fs base
  has_unaligned_field k e (defined m n u g as') base = has_unaligned_field k e u base
  has_unaligned_field k e (alias_ref m n r) base = k.unaligned_at m n r base
  has_unaligned_field k e _ base = some false

  pub unaligned_struct : Names → Machine → Fields → Bool → ℕ → ℕ → Option Bool
  unaligned_struct k e field_nil packed base offset = some false
  unaligned_struct k e (field_cons n t fs) packed base offset = do
    l ← layout_of k.layout_at e t
    let here = field_offset packed offset l
    let inner = has_unaligned_field k e t (base + here)
    let rest = unaligned_struct k e fs packed base (here + l.size)
    b ← (if not ((base + here) % l.align == 0) then some true else inner)
    if b then some true else rest

  pub unaligned_union : Names → Machine → Fields → ℕ → Option Bool
  unaligned_union k e field_nil base = some false
  unaligned_union k e (field_cons n t fs) base = do
    l ← layout_of k.layout_at e t
    let inner = has_unaligned_field k e t base
    let rest = unaligned_union k e fs base
    b ← (if not (base % l.align == 0) then some true else inner)
    if b then some true else rest

-- The type of an SSE chunk, by the float fields in it.
unfoldable pub sse_chunk : List Primitive → Option ChunkType
sse_chunk (f32 ∷ []) = some chunk_float
sse_chunk (f64 ∷ []) = some chunk_double
sse_chunk (f32 ∷ (f32 ∷ [])) = some chunk_float_pair
sse_chunk _ = none

unfoldable pub class_chunk : AbiClass → List Primitive → ℕ → Option ChunkType
unfolding sse_chunk
class_chunk class_integer fs bytes = some (chunk_int (bytes * 8))
class_chunk class_sse fs bytes = sse_chunk fs
class_chunk class_none fs bytes = none

-- The loop over the classes; `i` counts the chunks made so far.
unfoldable pub class_chunks : ℕ → ℕ → List AbiClass → List (List Primitive) → Option (List AbiChunk)
unfolding class_chunk
class_chunks size i [] floats = some []
class_chunks size i (c ∷ cs) floats = do
  fs ← get_elem? floats i
  let bytes = min (size - i * 8) 8
  t ← class_chunk c fs bytes
  rest ← class_chunks size (i + 1) cs floats
  some (direct t (i * 8) bytes ∷ rest)

-- `size > 16 || e.hasUnalignedAggregateField(aggregate, 0)`.
unfoldable pub in_memory : Names → Machine → Ty → Layout → Option Bool
in_memory k e t l =
    let unaligned = has_unaligned_field k e t 0 in if ltb 16 l.size then some true else unaligned

-- `sysVAMD64ABIGenerator.aggregateParamChunks`; `aggregateReturnChunks` is the same.
unfoldable pub sysv_param_chunks : Names → Machine → Ty → Option (List AbiChunk)
unfolding in_memory class_chunks
sysv_param_chunks k e t = do
  l ← layout_of k.layout_at e t
  b ← in_memory k e t l
  if b then some (indirect (byval (max 8 l.align)) ∷ []) else do
    let n = (l.size + 7) / 8
    st ← classify k e t 0 (record { classes = replicate n class_none; floats = replicate n [] })
    class_chunks l.size 0 st.classes st.floats

-- `sysVAMD64ABIGenerator.requiresSRet`.
unfoldable pub sysv_requires_sret : Names → Machine → Ty → Option Bool
unfolding in_memory
sysv_requires_sret k e t = do l ← layout_of k.layout_at e t; in_memory k e t l

-- The aliases of the cells, on fuel. One with no target is no aggregate and has no representation.
unfoldable pub names : Cells → Machine → ℕ → Names
unfolding target
names cells e zero = record {
  layout_at = alias_layout cells e zero;
  classify_at = λ m n r base st. none;
  unaligned_at = λ m n r base. none;
}
names cells e (suc fuel) = record {
  layout_at = alias_layout cells e (suc fuel);
  classify_at = λ m n r base st. elim (target cells r) [
    | none ↦ none
    | some t ↦ classify (names cells e fuel) e t base st
  ];
  unaligned_at = λ m n r base. elim (target cells r) [
    | none ↦ some false
    | some t ↦ has_unaligned_field (names cells e fuel) e t base
  ];
}
