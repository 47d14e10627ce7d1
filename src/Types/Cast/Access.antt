-- ===== src/Types/Cast/Access.antt =====
-- types/type.go: neither coercion nor an explicit cast turns an immutable pointer or slice into a
-- mutable one.
use qk.Prelude.{ℕ, suc, Option, some, Bool, true, false, ◌&&◌, not, ◌≡◌, refl, ap, arith}
use qk.Types.Syntax.{Ty, defined, alias_ref, pointer, slice, Cells}
use qk.Types.Underlying.{underlying}
use qk.Types.Equals.{Resolver, resolver, bool_eq, equals}
use qk.Types.Coerce.{can_coerce}
use qk.Types.Cast.{
  upgrades_mutable_access, cast_flat, cast_compatible, cast_step, can_cast, can_explicit_cast,
}
use qk.Types.Cast.Depth.{is_resolved, underlying-of_resolved}

equals-pointer_access :
    (k : Resolver) (t t' : Ty) (m m' : Bool)
    → (m' && not m) ≡ true
    → (equals k (pointer t m) (pointer t' m') ≡ false)
      × (equals k (slice t m) (slice t' m') ≡ false)
unfolding equals bool_eq
equals-pointer_access k t t' m m' h = ground arith

-- An immutable pointer or slice does not coerce to a mutable one.
pub can_coerce-upgrades_mutable_access :
    (k : Resolver) (a b : Ty) → upgrades_mutable_access a b ≡ true → can_coerce k a b ≡ false
unfolding upgrades_mutable_access can_coerce
can_coerce-upgrades_mutable_access k (pointer t m) (pointer t' m') h =
    ground (arith, equals-pointer_access k t t' m m' h)
can_coerce-upgrades_mutable_access k (pointer t m) (slice t' m') h = unfold equals in refl
can_coerce-upgrades_mutable_access k (pointer t m) _ h = cc
can_coerce-upgrades_mutable_access k (slice t m) (slice t' m') h =
    ground (arith, equals-pointer_access k t t' m m' h)
can_coerce-upgrades_mutable_access k (slice t m) (pointer t' m') h = unfold equals in refl
can_coerce-upgrades_mutable_access k (slice t m) _ h = cc
can_coerce-upgrades_mutable_access k _ b h = cc

module _ (cells : Cells) (fuel : ℕ) where
  cast_flat-upgrades :
      (a b : Ty)
      → upgrades_mutable_access a (underlying cells fuel b) ≡ true
      → cast_flat (resolver cells fuel) a b ≡ false
  unfolding upgrades_mutable_access cast_flat underlying
  cast_flat-upgrades (pointer t m) (pointer t' m') h =
      ground (arith, equals-pointer_access (resolver cells fuel) t t' m m' h)
  cast_flat-upgrades (pointer t m) (defined m' n' u g as') h = unfold equals in refl
  cast_flat-upgrades (pointer t m) (alias_ref m' n' r) h = unfold equals in refl
  cast_flat-upgrades (pointer t m) (slice t' m') h = unfold equals in refl
  cast_flat-upgrades (pointer t m) _ h = cc
  cast_flat-upgrades (slice t m) (slice t' m') h =
      ground (arith, equals-pointer_access (resolver cells fuel) t t' m m' h)
  cast_flat-upgrades (slice t m) (defined m' n' u g as') h = unfold equals in refl
  cast_flat-upgrades (slice t m) (alias_ref m' n' r) h = unfold equals in refl
  cast_flat-upgrades (slice t m) (pointer t' m') h = unfold equals in refl
  cast_flat-upgrades (slice t m) _ h = cc
  cast_flat-upgrades _ b h = cc

  abbrev Upgrades : Ty → Ty → Type 0
  Upgrades a b = upgrades_mutable_access (underlying cells fuel a) (underlying cells fuel b) ≡ true

  cast_compatible-Upgrades :
      (again : Ty → Ty → Option Bool) (a b : Ty)
      → Upgrades a b
      → cast_compatible again (resolver cells fuel) a b ≡ some false
  unfolding cast_compatible
  cast_compatible-Upgrades again a b h = rw h

  can_cast-Upgrades :
      (depth : ℕ) (a b : Ty)
      → is_resolved (underlying cells fuel b) ≡ true
      → Upgrades a b
      → can_cast (resolver cells fuel) (suc depth) a b ≡ some false
  unfolding can_cast cast_step underlying
  can_cast-Upgrades depth (defined m n u g as') b hb h =
      cast_compatible-Upgrades (can_cast (resolver cells fuel) depth) u (underlying cells fuel b)
        (rw (underlying-of_resolved cells fuel (underlying cells fuel b) hb) h)
  can_cast-Upgrades depth (alias_ref m n r) b hb h =
      cast_compatible-Upgrades (can_cast (resolver cells fuel) depth) (alias_ref m n r) b h
  can_cast-Upgrades depth a b hb h = ap some (cast_flat-upgrades a b h)

  -- CanExplicitCast answers false from a type whose underlying type is an immutable pointer or
  -- slice to one whose underlying type is a mutable pointer or slice, where the target resolves to
  -- a type that is no name.
  pub can_explicit_cast-upgrades :
      (depth : ℕ) (a b : Ty)
      → is_resolved (underlying cells fuel b) ≡ true
      → upgrades_mutable_access (underlying cells fuel a) (underlying cells fuel b) ≡ true
      → can_explicit_cast (resolver cells fuel) (suc depth) a b ≡ some false
  unfolding can_explicit_cast
  can_explicit_cast-upgrades depth a b hb h = ground (
    arith,
    can_cast-Upgrades depth a b hb h,
    cast_compatible-Upgrades (can_cast (resolver cells fuel) (suc depth)) a b h,
  )
