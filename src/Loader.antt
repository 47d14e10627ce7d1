-- ===== src/Loader.antt =====
-- loader: the modules of a program and the order in which they are built.
pub mod Dependency
mod Tests
pub mod ModuleInfo
