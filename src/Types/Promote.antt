-- ===== src/Types/Promote.antt =====
-- types/type.go: `PromoteNumeric` and `CommonType`, the type of an operation on two numbers.
pub mod Bounds
use qk.Prelude.{Option, none, some, Bool, true, false, ◌||◌, if◌then◌else◌}
use qk.Types.Primitive.{Primitive, f32, f64, is_float, is_integer, prim_eq, promote_integers}
use qk.Types.Syntax.{Ty, error_type, untyped_int, untyped_float, primitive}
use qk.Types.Equals.{Resolver, equals}

-- With an untyped float on one side; `other` is what stands on the other.
unfoldable pub promote_untyped_float : Ty → Ty
unfolding is_float is_integer
promote_untyped_float untyped_int = untyped_float
promote_untyped_float (primitive p) =
    if is_float p then primitive p else if is_integer p then primitive f64 else error_type
promote_untyped_float other = error_type

unfoldable pub promote_primitives : Primitive → Primitive → Ty
unfolding is_float prim_eq promote_integers
promote_primitives p q =
    if is_float p || is_float q
    then if prim_eq p f64 || prim_eq q f64 then primitive f64 else primitive f32
    else elim (promote_integers p q) [ none ↦ error_type | some r ↦ primitive r ]

-- The part behind the untyped floats.
unfoldable pub promote_typed : Ty → Ty → Ty
unfolding promote_primitives
promote_typed untyped_int b = b
promote_typed a untyped_int = a
promote_typed (primitive p) (primitive q) = promote_primitives p q
promote_typed a b = error_type

unfoldable pub is_untyped_float : Ty → Bool
is_untyped_float untyped_float = true
is_untyped_float _ = false

-- `PromoteNumeric`, and `CommonType`, which makes the same comparison once more before it.
unfoldable pub promote_numeric : Resolver → Ty → Ty → Ty
unfolding promote_untyped_float promote_typed is_untyped_float
promote_numeric k a b =
    if equals k a b
    then a
    else if is_untyped_float a || is_untyped_float b
    then promote_untyped_float (if is_untyped_float b then a else b)
    else promote_typed a b

unfoldable pub common_type : Resolver → Ty → Ty → Ty
unfolding promote_numeric
common_type k a b = if equals k a b then a else promote_numeric k a b
