-- ===== src/Ir.antt =====
-- ir: instructions and their evaluation at compile time.
pub mod Int
pub mod Instr
pub mod Value
pub mod Operand
pub mod Exec
pub mod Run
pub mod Division
pub mod Literal
pub mod Share
pub mod Unwind
pub mod Tests
