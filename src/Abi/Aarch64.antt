-- ===== src/Abi/Aarch64.antt =====
-- codegen/llvm/abi_aarch64.go: homogeneous float aggregates, and the chunks of AArch64.
pub mod Floats
use qk.Prelude.{
  ℕ, zero, suc, ◌+◌, ◌*◌, Bool, ◌&&◌, String, Option, none, some, ◌>>=◌, List, [], ◌∷◌, ◌==◌, leb,
  ltb, if◌then◌else◌,
}
use qk.Types.Primitive.{Primitive, f32, f64, prim_eq}
use qk.Types.Syntax.{
  Ty, Fields, primitive, defined, alias_ref, struct_type, array, field_nil, field_cons, Cells,
}
use qk.Types.Underlying.{target}
use qk.Abi.Layout.{Layout}
use qk.Abi.Chunk.{
  AbiChunk, chunk_int, chunk_int_pair, chunk_floats, no_attributes, align_stack, indirect, direct,
}

-- The variables of `homogeneousFloatAggregate`: the float type met, if any, and the count.
pub record Run : Type 0 where
  pub element : Option Primitive
  pub count : ℕ

-- `primitive != "" && primitive != t` is the refusal.
unfoldable pub visit_float : Primitive → Run → Option Run
unfolding prim_eq
visit_float p r = elim r.element [
  | none ↦ some (record { element = some p; count = r.count + 1 })
  | some q ↦ if prim_eq q p then some (record { element = some p; count = r.count + 1 }) else none
]

unfoldable pub visit_primitive : Primitive → Run → Option Run
unfolding visit_float
visit_primitive f32 r = visit_float f32 r
visit_primitive f64 r = visit_float f64 r
visit_primitive _ r = none

unfoldable pub repeat : ℕ → (Run → Option Run) → Run → Option Run
repeat zero body r = some r
repeat (suc n) body r = body r >>= λ r'. repeat n body r'

unfoldable mutual
  unfolding visit_primitive repeat

  -- `visit`; `none` is its answer `false`.
  pub visit : (String → String → Option ℕ → Run → Option Run) → Ty → Run → Option Run
  visit al (primitive p) r = visit_primitive p r
  visit al (struct_type fs packed i) r = visit_fields al fs r
  visit al (array t n) r = repeat n (visit al t) r
  visit al (defined m n u g as') r = visit al u r
  visit al (alias_ref m n c) r = al m n c r
  visit al _ r = none

  pub visit_fields : (String → String → Option ℕ → Run → Option Run) → Fields → Run → Option Run
  visit_fields al field_nil r = some r
  visit_fields al (field_cons n t fs) r = visit al t r >>= λ r'. visit_fields al fs r'

unfoldable pub visit_alias : Cells → ℕ → String → String → Option ℕ → Run → Option Run
unfolding target
visit_alias cells zero m n c r = none
visit_alias cells (suc fuel) m n c r = elim (target cells c) [
  | none ↦ none
  | some t ↦ visit (visit_alias cells fuel) t r
]

-- `homogeneousFloatAggregate`: the element type and the count.
unfoldable pub homogeneous_float_aggregate : Cells → ℕ → Ty → Option (Primitive × ℕ)
homogeneous_float_aggregate cells fuel t = do
  r ← visit (visit_alias cells fuel) t (record { element = none; count = 0 })
  p ← r.element
  if r.count == 0 then none else some (p, r.count)

-- `ok && count <= 4`.
unfoldable pub in_registers : Option (Primitive × ℕ) → Option (Primitive × ℕ)
in_registers none = none
in_registers (some (p, n)) = if leb n 4 then some (p, n) else none

-- `aarch64ABIGenerator.aggregateParamChunks`, from what `homogeneousFloatAggregate` answers.
unfoldable pub param_chunks : Bool → Option (Primitive × ℕ) → Layout → List AbiChunk
unfolding in_registers
param_chunks linux h l = elim (in_registers h) [
  | none ↦
      if leb l.size 8
      then direct (chunk_int 64) 0 8 ∷ []
      else if leb l.size 16
      then direct chunk_int_pair 0 16 ∷ []
      else indirect no_attributes ∷ []
  | some (p, n) ↦
      record {
        type_name = chunk_floats n p;
        attributes = if linux && ltb 1 n then align_stack else no_attributes;
        offset = some 0;
        size = l.size;
      }
      ∷ []
]

unfoldable pub return_chunks : Option (Primitive × ℕ) → Layout → List AbiChunk
unfolding in_registers
return_chunks h l = elim (in_registers h) [
  | none ↦
      if leb l.size 8
      then direct (chunk_int (l.size * 8)) 0 l.size ∷ []
      else if leb l.size 16
      then direct chunk_int_pair 0 16 ∷ []
      else indirect no_attributes ∷ []
  | some (p, n) ↦ direct (chunk_floats n p) 0 l.size ∷ []
]

unfoldable pub requires_sret : Layout → Bool
requires_sret l = ltb 16 l.size
