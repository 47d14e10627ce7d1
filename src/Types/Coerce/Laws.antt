-- ===== src/Types/Coerce/Laws.antt =====
-- types/type.go: coercion of functions, and what coercion never does.
use qk.Prelude.{Bool, true, false, ◌&&◌, ◌≡◌, refl, sym, ap, ap₂}
use qk.Types.Syntax.{Ty, OptTy, Tys, pointer, function, multiple_return, ty_nil, ty_cons}
use qk.Types.Equals.{Resolver, bool_eq}
use qk.Types.Coerce.{
  coerce_flat, pointer_coerce, can_coerce, can_coerce_types, coerced_from, coerced_from_types,
}

-- A type that coercion compares without asking about its parts.
abbrev is_flat : Ty → Bool
is_flat (pointer t m) = false
is_flat (multiple_return ts) = false
is_flat (function ps r v e) = false
is_flat _ = true

can_coerce-to_flat :
    (k : Resolver) (a b : Ty) → is_flat b ≡ true → can_coerce k a b ≡ coerce_flat k a b
unfolding can_coerce
can_coerce-to_flat k (pointer t m) (pointer t' m') h = cc
can_coerce-to_flat k (pointer t m) _ h = refl
can_coerce-to_flat k (multiple_return ts) (multiple_return ts') h = cc
can_coerce-to_flat k (multiple_return ts) _ h = refl
can_coerce-to_flat k (function ps r v e) (function ps' r' v' e') h = cc
can_coerce-to_flat k (function ps r v e) _ h = refl
can_coerce-to_flat k _ b h = refl

coerced_from-to_flat :
    (k : Resolver) (a b : Ty) → is_flat b ≡ true → coerced_from k a b ≡ coerce_flat k b a
unfolding can_coerce
coerced_from-to_flat k (pointer t m) (pointer t' m') h = cc
coerced_from-to_flat k (pointer t m) _ h = refl
coerced_from-to_flat k (multiple_return ts) (multiple_return ts') h = cc
coerced_from-to_flat k (multiple_return ts) _ h = refl
coerced_from-to_flat k (function ps r v e) (function ps' r' v' e') h = cc
coerced_from-to_flat k (function ps r v e) _ h = refl
coerced_from-to_flat k _ b h = refl

mutual
  unfolding can_coerce pointer_coerce

  swap_type : (k : Resolver) (a b : Ty) → coerced_from k a b ≡ can_coerce k b a
  swap_type k (pointer t m) (pointer t' m') = ap (pointer_coerce k t' m' t m) (swap_type k t t')
  swap_type k (pointer t m) b = refl
  swap_type k (multiple_return ts) (multiple_return ts') = swap_types k ts ts'
  swap_type k (multiple_return ts) b = refl
  swap_type k (function ps r v e) (function ps' r' v' e') =
      ap₂ (λ x y. (bool_eq v' v && x) && y) (swap_back_types k ps ps') (swap_type k r r')
  swap_type k (function ps r v e) b = refl
  swap_type k a b = sym (can_coerce-to_flat k b a refl)

  swap_types :
      (k : Resolver) (ts ts' : Tys) → coerced_from_types k ts ts' ≡ can_coerce_types k ts' ts
  swap_types k ty_nil ty_nil = refl
  swap_types k (ty_cons t ts) (ty_cons t' ts') = ap₂ ◌&&◌ (swap_type k t t') (swap_types k ts ts')
  swap_types k _ _ = refl

  swap_back : (k : Resolver) (a b : Ty) → can_coerce k a b ≡ coerced_from k b a
  swap_back k (pointer t m) (pointer t' m') = ap (pointer_coerce k t m t' m') (swap_back k t t')
  swap_back k (pointer t m) b = refl
  swap_back k (multiple_return ts) (multiple_return ts') = swap_back_types k ts ts'
  swap_back k (multiple_return ts) b = refl
  swap_back k (function ps r v e) (function ps' r' v' e') =
      ap₂ (λ x y. (bool_eq v v' && x) && y) (swap_types k ps ps') (swap_back k r r')
  swap_back k (function ps r v e) b = refl
  swap_back k a b = sym (coerced_from-to_flat k b a refl)

  swap_back_types :
      (k : Resolver) (ts ts' : Tys) → can_coerce_types k ts ts' ≡ coerced_from_types k ts' ts
  swap_back_types k ty_nil ty_nil = refl
  swap_back_types k (ty_cons t ts) (ty_cons t' ts') =
      ap₂ ◌&&◌ (swap_back k t t') (swap_back_types k ts ts')
  swap_back_types k _ _ = refl

-- The two directions are one relation.
pub coerced_from-swap : (k : Resolver) (a b : Ty) → coerced_from k a b ≡ can_coerce k b a
coerced_from-swap k a b = swap_type k a b

swap_parameters :
    (k : Resolver) (ts ts' : Tys) → coerced_from_types k ts ts' ≡ can_coerce_types k ts' ts
swap_parameters k ts ts' = swap_types k ts ts'

-- A function type coerces to another exactly when both are variadic or neither is, the other's
-- parameters coerce to its own and its result coerces to the other's.
pub can_coerce-function :
    (k : Resolver) (ps ps' : Tys) (r r' : Ty) (v v' : Bool) (e e' : OptTy)
    → can_coerce k (function ps r v e) (function ps' r' v' e')
      ≡ (bool_eq v v' && can_coerce_types k ps' ps && can_coerce k r r')
unfolding can_coerce
can_coerce-function k ps ps' r r' v v' e e' = rw (swap_parameters k ps ps')
