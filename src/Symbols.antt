-- ===== src/Symbols.antt =====
-- symbols: the scopes in which names are defined and resolved.
pub mod Scope
mod Tests
