-- ===== src/Symbols/Tests.antt =====
-- symbols/scope.go: a scope with a child, and the theorems at it.
use qk.Prelude.{
  if◌then◌else◌, ℕ, zero, suc, String, false, Option, none, some, str_eq, ◌≡◌, refl, arith,
}
use qk.Symbols.Scope.{Symbol, Scope, Store, define, write, with_symbol, resolve}
use qk.Symbols.Scope.Resolution.{IsStore, Resolves, resolve-Resolves, define-resolve}

abbrev print : Symbol
print = record { name = "print"; address = 1 }

abbrev local_print : Symbol
local_print = record { name = "print"; address = 2 }

abbrev empty : String → Option Symbol
empty name = none

-- Scope 0 holds `print`, and scope 1 is its child.
abbrev scope_at : ℕ → Scope
scope_at zero = record {
  parent = none;
  symbols = λ name. if str_eq "print" name then some print else none;
}
scope_at (suc zero) = record { parent = some 0; symbols = empty }
scope_at _ = record { parent = none; symbols = empty }

abbrev store : Store
store = record { next = 2; scopes = scope_at }

store-IsStore : IsStore store
store-IsStore zero p h = cc
store-IsStore (suc zero) p h = ground arith
store-IsStore (suc (suc s)) p h = cc

resolve-Resolves_example : Resolves store "print" 1 (resolve 2 store 1 "print")
resolve-Resolves_example = resolve-Resolves store "print" 2 1 store-IsStore (omega arith)

abbrev after : Store
after = write 1 (with_symbol local_print (scope_at 1)) store

define-resolve_example :
    ((store.scopes 1).symbols "print" ≡ none)
    × (resolve 2 after 1 "print" ≡ some local_print)
    × ((i : ℕ) (name : String)
        → str_eq "print" name ≡ false
        → resolve 1 after i name ≡ resolve 1 store i name)
unfolding define
define-resolve_example = define-resolve 1 1 local_print store after refl
