-- ===== src/Types/Underlying.antt =====
-- types/type.go: `Underlying`, the loop that leaves names for what they stand for. An alias may lead
-- back to itself, so the loop takes fuel: the number of alias targets that it may follow.
use qk.Prelude.{ℕ, zero, suc, String, Option, none, some}
use qk.Types.Syntax.{Ty, Cells, defined, alias_ref}

-- The cell's content: `none` for a nil `Target` or a nil `*Target`.
unfoldable pub target : Cells → Option ℕ → Option Ty
target cells none = none
target cells (some i) = cells i

-- The names in front of a type taken off; `follow` says where an alias leads.
unfoldable pub peel : (String → String → Option ℕ → Ty) → Ty → Ty
peel follow (defined m n u g as') = peel follow u
peel follow (alias_ref m n r) = follow m n r
peel follow t = t

unfoldable pub follow_alias : Cells → ℕ → String → String → Option ℕ → Ty
unfolding target
follow_alias cells zero m n r = alias_ref m n r
follow_alias cells (suc fuel) m n r = elim (target cells r) [
  | none ↦ alias_ref m n r
  | some t ↦ peel (follow_alias cells fuel) t
]

unfoldable pub underlying : Cells → ℕ → Ty → Ty
unfolding peel
underlying cells fuel t = peel (follow_alias cells fuel) t
