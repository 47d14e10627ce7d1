-- ===== src/Types/Coerce.antt =====
-- types/type.go: the method `CanCoerceTo` of every type.
pub mod Laws
use qk.Prelude.{Bool, true, false, ◌&&◌, ◌||◌, not, if◌then◌else◌}
use qk.Types.Primitive.{Primitive, void, is_integer, is_float, prim_can_coerce}
use qk.Types.Syntax.{
  Ty, OptTy, Tys, self_type, no_initializer, opaque_type, error_type, untyped_int, untyped_float,
  unresolved_enum, primitive, type_parameter, defined, alias_ref, struct_type, union_type,
  enum_type, flags_type, pointer, slice, array, sequence, function, multiple_return, trait_type,
  trait_pointer, ty_nil, ty_cons,
}
use qk.Types.Equals.{Resolver, bool_eq, trait_eq, equals}

-- The cases that ask no other `CanCoerceTo`. Where a struct, a name or a parameter stands, coercion
-- is `Equals`.
unfoldable pub coerce_flat : Resolver → Ty → Ty → Bool
coerce_flat k no_initializer b = false
coerce_flat k (sequence t l) b = false
coerce_flat k unresolved_enum b = false
coerce_flat k error_type b = true
coerce_flat k untyped_int (primitive q) = is_integer q || is_float q
coerce_flat k untyped_int untyped_int = true
coerce_flat k untyped_int untyped_float = true
coerce_flat k untyped_int b = false
coerce_flat k untyped_float (primitive q) = is_float q
coerce_flat k untyped_float untyped_float = true
coerce_flat k untyped_float b = false
coerce_flat k (primitive p) (primitive q) = prim_can_coerce p q
coerce_flat k (primitive p) b = equals k (primitive p) b
coerce_flat k (trait_pointer t m) (trait_pointer t' m') = (m || not m') && trait_eq t t'
coerce_flat k (trait_pointer t m) b = false
coerce_flat k (slice t m) (slice t' m') =
    if equals k (slice t m) (slice t' m')
    then true
    else if m' && not m
    then false
    else equals k t t'
coerce_flat k (slice t m) b = equals k (slice t m) b
coerce_flat k (array t l) (slice t' m') = not m' && equals k t t'
coerce_flat k (array t l) b = equals k (array t l) b
coerce_flat k (pointer t m) b = equals k (pointer t m) b
coerce_flat k (function ps r v e) b = false
coerce_flat k (multiple_return ts) b = false
coerce_flat k a b = equals k a b

-- The tests of `PointerType.CanCoerceTo` on two pointers; `base` is the coercion of the base types.
unfoldable pub pointer_coerce : Resolver → Ty → Bool → Ty → Bool → Bool → Bool
pointer_coerce k t m t' m' base =
    if equals k (pointer t m) (pointer t' m')
    then true
    else if not m && m'
    then false
    else if equals k t (primitive void) || equals k t' (primitive void)
    then true
    else base

-- A function's parameters are compared the other way round, so the recursion has both directions:
-- `can_coerce k a b` is `a.CanCoerceTo(b)`, and `coerced_from k a b` is `b.CanCoerceTo(a)`.
unfoldable mutual
  unfolding coerce_flat pointer_coerce

  pub can_coerce : Resolver → Ty → Ty → Bool
  can_coerce k (pointer t m) (pointer t' m') = pointer_coerce k t m t' m' (can_coerce k t t')
  can_coerce k (multiple_return ts) (multiple_return ts') = can_coerce_types k ts ts'
  can_coerce k (function ps r v e) (function ps' r' v' e') =
      bool_eq v v' && coerced_from_types k ps ps' && can_coerce k r r'
  can_coerce k a b = coerce_flat k a b

  pub can_coerce_types : Resolver → Tys → Tys → Bool
  can_coerce_types k ty_nil ty_nil = true
  can_coerce_types k (ty_cons t ts) (ty_cons t' ts') =
      can_coerce k t t' && can_coerce_types k ts ts'
  can_coerce_types k _ _ = false

  pub coerced_from : Resolver → Ty → Ty → Bool
  coerced_from k (pointer t m) (pointer t' m') = pointer_coerce k t' m' t m (coerced_from k t t')
  coerced_from k (multiple_return ts) (multiple_return ts') = coerced_from_types k ts ts'
  coerced_from k (function ps r v e) (function ps' r' v' e') =
      bool_eq v' v && can_coerce_types k ps ps' && coerced_from k r r'
  coerced_from k a b = coerce_flat k b a

  pub coerced_from_types : Resolver → Tys → Tys → Bool
  coerced_from_types k ty_nil ty_nil = true
  coerced_from_types k (ty_cons t ts) (ty_cons t' ts') =
      coerced_from k t t' && coerced_from_types k ts ts'
  coerced_from_types k _ _ = false
