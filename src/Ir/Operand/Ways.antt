-- ===== src/Ir/Operand/Ways.antt =====
-- ir/eval.go: the kinds of types, the fields of aggregates and where a value is.
use qk.Prelude.{ℕ, ◌+◌, ◌%◌, ◌^◌, String, Bool, true, false, [], if◌then◌else◌, str_eq}
use qk.Types.Primitive.{is_integer, is_float}
use qk.Types.Syntax.{
  Ty, Fields, field_nil, field_cons, primitive, untyped_int, untyped_float, struct_type, union_type,
  pointer,
}
use qk.Types.Equals.{Resolver, equals}
use qk.Ir.Int.{ℤ, magnitude}
use qk.Ir.Value.{EvalPath, EvalError, unavailable, no_field, Eval, ok, err}

-- An error with no place yet.
abbrev pub not_available : EvalError
not_available = unavailable (record {
  source_name = "";
  source_loc = record { file = ""; offset = 0; end_offset = 0 };
  call_stack = [];
})

-- `IsFloat` and `IsInteger` on an underlying type.
unfoldable pub is_float_type : Resolver → Ty → Bool
is_float_type k (primitive p) = is_float p
is_float_type k t = equals k t untyped_float

unfoldable pub is_integer_type : Resolver → Ty → Bool
is_integer_type k (primitive p) = is_integer p
is_integer_type k t = equals k t untyped_int

-- `evalFieldPath`: the loops over the fields.
unfoldable pub struct_path : String → ℕ → Fields → Eval EvalPath
struct_path name i field_nil = err no_field
struct_path name i (field_cons n t fs) =
    if str_eq n name
    then ok (record { index = i; typ = t; is_union = false })
    else struct_path name (i + 1) fs

unfoldable pub union_path : String → Fields → Eval EvalPath
union_path name field_nil = err no_field
union_path name (field_cons n t fs) =
    if str_eq n name
    then ok (record { index = 0; typ = t; is_union = true })
    else union_path name fs

unfoldable pub aggregate_path : Ty → String → Eval EvalPath
unfolding struct_path union_path
aggregate_path (struct_type fs p i) name = struct_path name 0 fs
aggregate_path (union_type m n fs) name = union_path name fs
aggregate_path _ name = err no_field

unfoldable pub pointer_path : Resolver → Ty → String → Eval EvalPath
unfolding aggregate_path
pointer_path k (pointer t m) name = aggregate_path (k.base t) name
pointer_path k _ name = err no_field

unfoldable pub eval_field_path : Resolver → Ty → String → Eval EvalPath
unfolding pointer_path
eval_field_path k t name = pointer_path k (k.base t) name

-- `Uint64`, the low bits of the magnitude.
unfoldable pub uint64 : ℤ → ℕ
uint64 n = magnitude n % 2 ^ 64
