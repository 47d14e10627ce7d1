-- ===== src/Types/Promote/Bounds.antt =====
-- types/type.go: the promoted type of two numeric types.
use mathlib.Core.Path.{subst}
use qk.Prelude.{
  Option, none, some, Bool, true, false, ◌||◌, if◌then◌else◌, ◌≡◌, ◌⊎◌, inl, inr, refl, arith,
}
use qk.Types.Primitive.{
  Primitive, f32, f64, is_float, is_integer, is_numeric, prim_eq, prim_eq→eq, prim_can_coerce,
  promote_integers,
}
use qk.Types.Primitive.Coercion.{promote_integers-coerces}
use qk.Types.Syntax.{Ty, error_type, untyped_int, untyped_float, primitive}
use qk.Types.Equals.{Resolver, equals}
use qk.Types.Coerce.{can_coerce, coerce_flat}
use qk.Types.Promote.{promote_numeric, promote_untyped_float, promote_primitives}

-- The numeric types and the types of numeric literals.
unfoldable pub is_number : Ty → Bool
unfolding is_numeric
is_number (primitive p) = is_numeric p
is_number untyped_int = true
is_number untyped_float = true
is_number _ = false

-- Both coerce to the promoted type, unless it is the error type.
abbrev pub IsBound : Resolver → Ty → Ty → Ty → Type 0
IsBound k a b r = (can_coerce k a r ≡ true) × (can_coerce k b r ≡ true)

abbrev Bounded : Resolver → Ty → Ty → Ty → Type 0
Bounded k a b r = (r ≡ error_type) ⊎ IsBound k a b r

Bounded-primitive :
    (k : Resolver) (p q r : Primitive)
    → prim_can_coerce p r ≡ true
    → prim_can_coerce q r ≡ true
    → Bounded k (primitive p) (primitive q) (primitive r)
unfolding can_coerce coerce_flat
Bounded-primitive k p q r h h' = inr (h, h')

to_f64 : (p : Primitive) → is_numeric p ≡ true → prim_can_coerce p f64 ≡ true
unfolding is_numeric prim_can_coerce
to_f64 p h = ground arith

to_f32 :
    (p q : Primitive)
    → is_numeric p ≡ true
    → (prim_eq p f64 || prim_eq q f64) ≡ false
    → prim_can_coerce p f32 ≡ true
unfolding is_numeric prim_can_coerce
to_f32 p q h e = ground arith

or_swap : (a b : Bool) → (a || b) ≡ false → (b || a) ≡ false
or_swap a b h = ground arith

prim_can_coerce_refl : (p : Primitive) → prim_can_coerce p p ≡ true
unfolding prim_can_coerce
prim_can_coerce_refl p = ground arith

Bounded-if :
    (k : Resolver) (a b x y : Ty) (c : Bool)
    → (c ≡ true → Bounded k a b x)
    → (c ≡ false → Bounded k a b y)
    → Bounded k a b (if c then x else y)
Bounded-if k a b x y true h h' = h refl
Bounded-if k a b x y false h h' = h' refl

Bounded-integers :
    (k : Resolver) (p q : Primitive) (o : Option Primitive)
    → promote_integers p q ≡ o
    → Bounded k (primitive p) (primitive q) (elim o [ none ↦ error_type | some r ↦ primitive r ])
Bounded-integers k p q none h = inl refl
Bounded-integers k p q (some r) h =
    let c = promote_integers-coerces p q r h in Bounded-primitive k p q r c.0 c.1

promote_primitives-Bounded :
    (k : Resolver) (p q : Primitive)
    → is_numeric p ≡ true
    → is_numeric q ≡ true
    → Bounded k (primitive p) (primitive q) (promote_primitives p q)
unfolding promote_primitives
promote_primitives-Bounded k p q hp hq =
    Bounded-if k _ _ _ _ (is_float p || is_float q)
      (λ f.
        Bounded-if k _ _ _ _ (prim_eq p f64 || prim_eq q f64)
          (λ e. Bounded-primitive k p q f64 (to_f64 p hp) (to_f64 q hq))
          (λ e.
            Bounded-primitive k p q f32 (to_f32 p q hp e)
              (to_f32 q p hq (or_swap (prim_eq p f64) (prim_eq q f64) e))))
      (λ f. Bounded-integers k p q (promote_integers p q) refl)

Bounded-swap : (k : Resolver) (a b r : Ty) → Bounded k a b r → Bounded k b a r
Bounded-swap k a b r (inl e) = inl e
Bounded-swap k a b r (inr h) = inr (h.1, h.0)

literal_coerces :
    (k : Resolver) (p : Primitive)
    → is_numeric p ≡ true
    → Bounded k (primitive p) untyped_int (primitive p)
unfolding can_coerce coerce_flat is_numeric
literal_coerces k p h = inr (prim_can_coerce_refl p, h)

untyped_float-Bounded :
    (k : Resolver) (p : Primitive)
    → is_numeric p ≡ true
    → Bounded k (primitive p) untyped_float (promote_untyped_float (primitive p))
unfolding promote_untyped_float can_coerce coerce_flat
untyped_float-Bounded k p h =
    Bounded-if k (primitive p) untyped_float _ _ (is_float p) (λ f. inr (prim_can_coerce_refl p, f))
      λ f.
        Bounded-if k (primitive p) untyped_float _ _ (is_integer p) (λ i. inr (to_f64 p h, refl))
          (λ i. inl refl)

-- PromoteNumeric of two numeric types or literal types gives the error type, or one that both
-- coerce to.
pub promote_numeric-IsBound :
    (k : Resolver) (a b : Ty)
    → is_number a ≡ true
    → is_number b ≡ true
    → (promote_numeric k a b ≡ error_type) ⊎ IsBound k a b (promote_numeric k a b)
unfolding promote_numeric is_number equals
promote_numeric-IsBound k (primitive p) (primitive q) ha hb =
    Bounded-if k _ _ _ _ (prim_eq p q)
      (λ e.
        Bounded-primitive k p q p (prim_can_coerce_refl p)
          (subst (λ r. prim_can_coerce r p ≡ true) (prim_eq→eq p q e) (prim_can_coerce_refl p)))
      (λ e. promote_primitives-Bounded k p q ha hb)
promote_numeric-IsBound k (primitive p) untyped_int ha hb = literal_coerces k p ha
promote_numeric-IsBound k untyped_int (primitive q) ha hb =
    Bounded-swap k _ _ _ (literal_coerces k q hb)
promote_numeric-IsBound k (primitive p) untyped_float ha hb = untyped_float-Bounded k p ha
promote_numeric-IsBound k untyped_float (primitive q) ha hb =
    Bounded-swap k _ _ _ (untyped_float-Bounded k q hb)
promote_numeric-IsBound k untyped_int untyped_int ha hb = unfold can_coerce in inr (refl, refl)
promote_numeric-IsBound k untyped_int untyped_float ha hb = unfold can_coerce in inr (refl, refl)
promote_numeric-IsBound k untyped_float untyped_int ha hb = unfold can_coerce in inr (refl, refl)
promote_numeric-IsBound k untyped_float untyped_float ha hb = unfold can_coerce in inr (refl, refl)
promote_numeric-IsBound k _ _ ha hb = cc
