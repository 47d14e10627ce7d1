-- ===== src/Abi.antt =====
-- codegen/llvm: the layout of types and the C calling conventions for aggregates.
pub mod Align
pub mod Layout
pub mod Chunk
pub mod SysV
pub mod Win32
pub mod Win64
pub mod SysVi386
pub mod Aarch64
pub mod Generator
mod Tests
pub mod Machine
