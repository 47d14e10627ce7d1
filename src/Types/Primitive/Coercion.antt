-- ===== src/Types/Primitive/Coercion.antt =====
-- What implicit coercion, explicit cast and promotion mean on the primitive types.
use qk.Prelude.{ℕ, ◌≤◌, true, ◌≡◌, arith, Option, none, some, ◌↔◌}
use qk.Types.Primitive.{
  Primitive, i8, i16, i32, i64, u8, u16, u32, u64, isz, usz, is_signed, is_integer, prim_can_coerce,
  prim_can_cast, promote_integers,
}

-- The width of a fixed-width integer in bits.
abbrev pub bits : Primitive → Option ℕ
bits i8 = some 8
bits u8 = some 8
bits i16 = some 16
bits u16 = some 16
bits i32 = some 32
bits u32 = some 32
bits i64 = some 64
bits u64 = some 64
bits _ = none

-- Between fixed-width integers implicit coercion is exactly widening within one signedness.
pub prim_can_coerce-fixed_width :
    (p q : Primitive) (m n : ℕ)
    → bits p ≡ some m
    → bits q ≡ some n
    → (prim_can_coerce p q ≡ true) ↔ ((is_signed p ≡ is_signed q) × (m ≤ n))
unfolding prim_can_coerce
prim_can_coerce-fixed_width p q m n hp hq = ground arith

-- Every integer type, signed ones too, coerces to usz, and isz coerces to every signed integer
-- type.
pub prim_can_coerce-pointer_sized :
    (p q : Primitive)
    → is_integer p ≡ true
    → is_signed q ≡ true
    → (prim_can_coerce p usz ≡ true) × (prim_can_coerce isz q ≡ true)
unfolding prim_can_coerce
prim_can_coerce-pointer_sized p q h k = ground arith

-- A primitive type that coerces to another may be cast to it and back.
pub prim_can_cast-of_coerce :
    (p q : Primitive)
    → prim_can_coerce p q ≡ true
    → (prim_can_cast p q ≡ true) × (prim_can_cast q p ≡ true)
unfolding prim_can_coerce prim_can_cast
prim_can_cast-of_coerce p q h = ground arith

-- The type that two integer types promote to is one that both coerce to.
pub promote_integers-coerces :
    (p q r : Primitive)
    → promote_integers p q ≡ some r
    → (prim_can_coerce p r ≡ true) × (prim_can_coerce q r ≡ true)
unfolding promote_integers prim_can_coerce
promote_integers-coerces p q r h = ground arith
