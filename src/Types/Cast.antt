-- ===== src/Types/Cast.antt =====
-- types/type.go: the method `CanCastTo` of every type, `castCompatible`, `upgradesMutableAccess` and
-- `CanExplicitCast`. The casts of named types go through `castCompatible`, which asks `CanCastTo`
-- again, so these take fuel: the depth of such calls. `none` is a depth that did not suffice.
pub mod Depth
pub mod Access
use qk.Prelude.{
  ℕ, zero, suc, Option, none, some, ◌>>=◌, Bool, true, false, ◌&&◌, ◌||◌, not, if◌then◌else◌,
}
use qk.Types.Primitive.{Primitive, bool, is_integer, is_float, is_numeric, prim_eq, prim_can_cast}
use qk.Types.Syntax.{
  Ty, self_type, no_initializer, error_type, untyped_int, untyped_float, unresolved_enum, primitive,
  defined, alias_ref, struct_type, flags_type, pointer, slice, array, sequence, trait_pointer,
}
use qk.Types.Equals.{Resolver, bool_eq, trait_eq, equals}
use qk.Types.Coerce.{coerce_flat}

-- `upgradesMutableAccess`.
unfoldable pub upgrades_mutable_access : Ty → Ty → Bool
upgrades_mutable_access (pointer t m) (pointer t' m') = m' && not m
upgrades_mutable_access (pointer t m) (slice t' m') = m' && not m
upgrades_mutable_access (slice t m) (pointer t' m') = m' && not m
upgrades_mutable_access (slice t m) (slice t' m') = m' && not m
upgrades_mutable_access _ _ = false

-- `CanCastTo` of the types that are no names.
unfoldable pub cast_flat : Resolver → Ty → Ty → Bool
cast_flat k no_initializer b = false
cast_flat k (sequence t l) b = false
cast_flat k unresolved_enum b = false
cast_flat k error_type b = true
cast_flat k untyped_int (primitive q) = is_numeric q || prim_eq q bool
cast_flat k untyped_int b = false
cast_flat k untyped_float (primitive q) = is_float q || is_integer q
cast_flat k untyped_float b = false
cast_flat k (primitive p) (primitive q) = prim_can_cast p q
cast_flat k (primitive p) (pointer t m) = is_integer p
cast_flat k (primitive p) b = equals k (primitive p) b
cast_flat k (trait_pointer t m) (trait_pointer t' m') = (m || not m') && trait_eq t t'
cast_flat k (trait_pointer t m) b = false
cast_flat k (flags_type p vs ws) b = equals k b (primitive p) || equals k (flags_type p vs ws) b
cast_flat k (pointer t m) (pointer t' m') =
    if equals k (pointer t m) (pointer t' m') then true else if not m && m' then false else true
cast_flat k (pointer t m) (primitive q) = is_integer q
cast_flat k (pointer t m) b = equals k (pointer t m) b
cast_flat k (slice t m) (slice t' m') =
    if equals k (slice t m) (slice t' m')
    then true
    else if m' && not m
    then false
    else equals k t t'
cast_flat k (slice t m) (array t' l) = equals k t t'
cast_flat k (slice t m) b = equals k (slice t m) b
cast_flat k (array t l) (slice t' m') = equals k t t'
cast_flat k (array t l) b = equals k (array t l) b
cast_flat k a b = equals k a b

-- `castCompatible`, over the `CanCastTo` that it calls.
unfoldable pub cast_compatible : (Ty → Ty → Option Bool) → Resolver → Ty → Ty → Option Bool
unfolding upgrades_mutable_access
cast_compatible again k a b =
    let from = k.base a in
    let to = k.base b in
    if upgrades_mutable_access from to
    then some false
    else if equals k from to
    then some true
    else again from to >>= λ r. if r then some true else again to from

-- `CanCastTo`, over the `CanCastTo` that `castCompatible` calls.
unfoldable pub cast_step : (Ty → Ty → Option Bool) → Resolver → Ty → Ty → Option Bool
unfolding cast_flat cast_compatible
cast_step again k (defined m n u g as') b = cast_compatible again k u (k.base b)
cast_step again k (alias_ref m n r) b = cast_compatible again k (alias_ref m n r) b
cast_step again k a b = some (cast_flat k a b)

unfoldable pub can_cast : Resolver → ℕ → Ty → Ty → Option Bool
unfolding cast_step
can_cast k zero a b = none
can_cast k (suc depth) a b = cast_step (can_cast k depth) k a b

unfoldable pub is_defined : Ty → Bool
is_defined (defined m n u g as') = true
is_defined _ = false

-- `CanExplicitCast`.
unfoldable pub can_explicit_cast : Resolver → ℕ → Ty → Ty → Option Bool
unfolding is_defined cast_compatible
can_explicit_cast k depth a b = can_cast k depth a b >>= λ r.
    if r
    then some true
    else if is_defined a || is_defined b
    then cast_compatible (can_cast k depth) k a b
    else some false
