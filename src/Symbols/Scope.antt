-- ===== src/Symbols/Scope.antt =====
-- symbols/scope.go: scopes on a store, since a parent is shared by its children and is still defined
-- into while they exist. A scope's number is its address; each new scope takes the next number.
pub mod Resolution
use qk.Prelude.{
  ℕ, zero, suc, ◌+◌, ◌<◌, String, Bool, true, false, Option, none, some, str_eq, ◌==◌,
  if◌then◌else◌,
}

-- A `*Symbol`: its name, and the address of the rest.
pub record Symbol : Type 0 where
  pub name : String
  pub address : ℕ

-- The struct `Scope`.
pub record Scope : Type 0 where
  pub parent : Option ℕ
  pub symbols : String → Option Symbol

pub record Store : Type 0 where
  pub next : ℕ
  pub scopes : ℕ → Scope

unfoldable pub write : ℕ → Scope → Store → Store
write s sc st = record st { scopes = λ i. if s == i then sc else st.scopes i }

-- `NewScope` and `NewChild`: the store and the new scope's number.
unfoldable pub new_scope : Option ℕ → Store → Store × ℕ
unfolding write
new_scope parent st =
    let sc : Scope = record { parent = parent; symbols = λ name. none } in
    (record { next = st.next + 1; scopes = (write st.next sc st).scopes }, st.next)

unfoldable pub new_child : ℕ → Store → Store × ℕ
unfolding new_scope
new_child s st = new_scope (some s) st

-- `s.Symbols[sym.Name] = sym`.
unfoldable pub with_symbol : Symbol → Scope → Scope
with_symbol sym sc = record sc {
  symbols = λ name. if str_eq sym.name name then some sym else sc.symbols name;
}

-- `Define`; `none` is the error of a name that the scope already has.
unfoldable pub define : ℕ → Symbol → Store → Option Store
unfolding write with_symbol
define s sym st = elim ((st.scopes s).symbols sym.name) [
  | some old ↦ none
  | none ↦ some (write s (with_symbol sym (st.scopes s)) st)
]

-- `Resolve`, on fuel: the number of scopes that are looked into.
unfoldable pub resolve : ℕ → Store → ℕ → String → Option Symbol
resolve zero st s name = none
resolve (suc fuel) st s name = elim ((st.scopes s).symbols name) [
  | some sym ↦ some sym
  | none ↦ elim (st.scopes s).parent [ none ↦ none | some p ↦ resolve fuel st p name ]
]
