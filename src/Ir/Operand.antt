-- ===== src/Ir/Operand.antt =====
-- ir/eval.go: the values of operands, zero values, and the ways into aggregates.
mod Ways
unfoldable pub use Ways.*
use qk.Prelude.{
  ℕ, zero, suc, ◌%◌, ◌^◌, false, ◌||◌, Option, none, some, List, [], ◌∷◌, get_elem?, set?,
  if◌then◌else◌,
}
use qk.Types.Primitive.{bool, f32, i32, u32, u64}
use qk.Types.Syntax.{
  Ty, Fields, Tys, field_nil, field_cons, ty_nil, ty_cons, primitive, struct_type, union_type,
  multiple_return,
}
use qk.Types.Equals.{Resolver, equals}
use qk.Ir.Int.{pos, set_string}
use qk.Ir.Instr.{
  Operand, Operands, value, int_const, float_const, bool_const, null_const, zero_const,
  struct_const, c_string_const, function_const, sizeof_const, binary_const, none_left, and_then,
}
use qk.Ir.Value.{
  FloatOps, EvalPath, EvalPointer, EvalValue, invalid_pointer, out_of_range, empty_union,
  undefined_value, invalid_integer, invalid_float, Eval, ok, err, endless, ◌>>=◌, or_err, Memory,
  eval_integer, eval_float, eval_bool, aggregate_of, elements, set_element, new_array,
}

-- Where a variable of type `EvalValue` is.
pub data Spot : Type 0 where
  in_cell : ℕ → Spot
  in_array : ℕ → ℕ → Spot

module _ (F : FloatOps) (k : Resolver) where
  open F use {Float, float_zero, round, parse, bits64, bits32, from_bits64, from_bits32}

  -- The zero values of the fields, by the zero value of a type.
  unfoldable pub zero_fields :
      (Ty → Memory F → Eval (EvalValue Float × Memory F))
      → Fields
      → Memory F
      → Eval (List (EvalValue Float) × Memory F)
  zero_fields zero_of field_nil m = ok ([], m)
  zero_fields zero_of (field_cons n t fs) m = do
    (v, m') ← zero_of t m
    (vs, m'') ← zero_fields zero_of fs m'
    ok (v ∷ vs, m'')

  unfoldable pub zero_types :
      (Ty → Memory F → Eval (EvalValue Float × Memory F))
      → Tys
      → Memory F
      → Eval (List (EvalValue Float) × Memory F)
  zero_types zero_of ty_nil m = ok ([], m)
  zero_types zero_of (ty_cons t ts) m = do
    (v, m') ← zero_of t m
    (vs, m'') ← zero_types zero_of ts m'
    ok (v ∷ vs, m'')

  -- The switch of `zeroEvalValue` on the underlying type.
  unfoldable pub zero_aggregate :
      (Ty → Memory F → Eval (EvalValue Float × Memory F))
      → Ty
      → Ty
      → Memory F
      → Eval (EvalValue Float × Memory F)
  zero_aggregate zero_of t (struct_type fs p i) m = do
    (vs, m') ← zero_fields zero_of fs m
    ok (aggregate_of F (some t) vs m')
  zero_aggregate zero_of t (union_type n n' fs) m =
      ok (aggregate_of F (some t) (eval_integer F (pos 0) (some (primitive u64)) ∷ []) m)
  zero_aggregate zero_of t (multiple_return ts) m = do
    (vs, m') ← zero_types zero_of ts m
    ok (aggregate_of F (some t) vs m')
  zero_aggregate zero_of t _ m = ok (eval_integer F (pos 0) (some t), m)

  -- `zeroEvalValue` of a type, of so many levels of aggregates at most.
  unfoldable pub zero_value : ℕ → Ty → Memory F → Eval (EvalValue Float × Memory F)
  unfolding zero_aggregate zero_fields zero_types is_float_type
  zero_value zero t m = endless
  zero_value (suc levels) t m =
      if equals k (k.base t) (primitive bool)
      then ok (eval_bool F false, m)
      else if is_float_type k (k.base t)
      then ok (eval_float F float_zero (some t), m)
      else zero_aggregate (λ t' m'. zero_value levels t' m') t (k.base t) m

  unfoldable pub float_const_value : Ty → Float → EvalValue Float
  float_const_value t x =
      eval_float F (if equals k (k.base t) (primitive f32) then round x else x) (some t)

  -- `operand`, in a frame whose values are given; outside a frame there are none.
  unfoldable mutual
    unfolding zero_value float_const_value set_string

    pub operand :
        ℕ → Operand → (ℕ → Option (EvalValue Float)) → Memory F → Eval (EvalValue Float × Memory F)
    operand levels (value i t) values m = or_err undefined_value (values i) >>= λ v. ok (v, m)
    operand levels (int_const s t) values m =
        or_err invalid_integer (set_string s) >>= λ n. ok (eval_integer F n (some t), m)
    operand levels (float_const s t) values m =
        or_err invalid_float (parse s) >>= λ x. ok (float_const_value t x, m)
    operand levels (bool_const b) values m = ok (eval_bool F b, m)
    operand levels (null_const t) values m = zero_value levels t m
    operand levels (zero_const t) values m = zero_value levels t m
    operand levels (struct_const t os) values m =
        operands levels os values m >>= λ r. ok (aggregate_of F (some t) r.0 r.1)
    operand levels (c_string_const s) values m = err not_available
    operand levels (function_const s t) values m = err not_available
    operand levels (sizeof_const t) values m = err not_available
    operand levels (binary_const s l r t) values m = err not_available

    pub operands :
        ℕ
        → Operands
        → (ℕ → Option (EvalValue Float))
        → Memory F
        → Eval (List (EvalValue Float) × Memory F)
    operands levels none_left values m = ok ([], m)
    operands levels (and_then o os) values m = operand levels o values m >>= λ r.
        operands levels os values r.1 >>= λ r'. ok (r.0 ∷ r'.0, r'.1)

  -- `reinterpretEvalValue` of a value that is no float, or not read as an integer.
  unfoldable pub reinterpret_integer : EvalValue Float → Ty → EvalValue Float
  unfolding uint64 is_float_type
  reinterpret_integer v t = elim v.integer [
    | some n ↦
        if is_float_type k (k.base t)
        then eval_float F
            (if equals k (k.base t) (primitive f32)
              then from_bits32 (uint64 n % 2 ^ 32)
              else from_bits64 (uint64 n))
            (some t)
        else record v { typ = some t }
    | none ↦ record v { typ = some t }
  ]

  -- `reinterpretEvalValue`
  unfoldable pub reinterpret : EvalValue Float → Ty → EvalValue Float
  unfolding is_integer_type reinterpret_integer
  reinterpret v t =
      let u = k.base t in
      elim v.float [
        | some x ↦
            if is_integer_type k u
            then eval_integer F
                (pos (
                  if equals k u (primitive u32) || equals k u (primitive i32)
                  then bits32 x
                  else bits64 x))
                (some t)
            else reinterpret_integer v t
        | none ↦ reinterpret_integer v t
      ]

  unfoldable pub read_spot : Spot → Memory F → Option (EvalValue Float)
  read_spot (in_cell c) m = get_elem? m.cells c
  read_spot (in_array a i) m = get_elem? (elements F m (some a)) i

  unfoldable pub write_spot : Spot → EvalValue Float → Memory F → Option (Memory F)
  unfolding set?
  write_spot (in_cell c) v m = elim (set? m.cells c v) [
    | none ↦ none
    | some cells ↦ some (record m { cells = cells })
  ]
  write_spot (in_array a i) v m = set_element F (some a) i v m

  -- The loop of `load`.
  unfoldable pub load_path : List EvalPath → EvalValue Float → Memory F → Eval (EvalValue Float)
  unfolding reinterpret
  load_path [] v m = ok v
  load_path (step ∷ path) v m =
      if step.is_union
      then elim (elements F m v.aggregate) [
        | [] ↦ err empty_union
        | x ∷ xs ↦ ok (reinterpret x step.typ)
      ]
      else elim (get_elem? (elements F m v.aggregate) step.index) [
        | none ↦ err out_of_range
        | some x ↦ load_path path x m
      ]

  unfoldable pub load_pointer : EvalPointer → Memory F → Eval (EvalValue Float)
  unfolding load_path
  load_pointer p m = or_err invalid_pointer (get_elem? m.cells p.root) >>= λ v. load_path p.path v m

  -- A value into the storage of a union, which is made where there is none.
  unfoldable pub store_union :
      Spot → EvalValue Float → EvalValue Float → Memory F → Option (Memory F)
  unfolding write_spot
  store_union at target v m = elim (elements F m target.aggregate) [
    | [] ↦
        let (a, m') = new_array F (v ∷ []) m in
        write_spot at (record target { aggregate = some a }) m'
    | x ∷ xs ↦ set_element F target.aggregate 0 v m
  ]

  -- `storeEvalPath`
  unfoldable pub store_path : List EvalPath → Spot → EvalValue Float → Memory F → Eval (Memory F)
  unfolding read_spot write_spot store_union
  store_path [] at v m = or_err out_of_range (write_spot at v m)
  store_path (step ∷ path) at v m = or_err invalid_pointer (read_spot at m) >>= λ target.
      if step.is_union
      then or_err out_of_range (store_union at target v m)
      else elim target.aggregate [
        | none ↦ err out_of_range
        | some a ↦ elim (get_elem? (elements F m (some a)) step.index) [
          | none ↦ err out_of_range
          | some x ↦ store_path path (in_array a step.index) v m
        ]
      ]

  unfoldable pub store_pointer : EvalPointer → EvalValue Float → Memory F → Eval (Memory F)
  unfolding store_path
  store_pointer p v m = store_path p.path (in_cell p.root) v m
