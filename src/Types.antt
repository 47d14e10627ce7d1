-- ===== src/Types.antt =====
-- types/type.go: the compiler's types.
pub mod Primitive
pub mod Syntax
pub mod Underlying
pub mod Equals
pub mod Coerce
pub mod Cast
pub mod Contains
pub mod Substitute
mod Tests
pub mod Promote
pub mod TaggedUnion
