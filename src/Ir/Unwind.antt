-- ===== src/Ir/Unwind.antt =====
-- ir/eval.go: the places that an error of an unavailable operation names, while calls unwind.
use qk.Prelude.{
  true, false, not, List, [], ◌∷◌, ◌++◌, ◌≡◌, refl, sym, ap, ◌∙◌, inl, inr, if◌then◌else◌, str_eq,
  Bool-cases,
}
use mathlib.Core.List.{append-nil, append_assoc}
use qk.Ir.Instr.{Place, SourceOrigin, CallInstr}
use qk.Ir.Value.{Unavailable, EvalError, unavailable}
use qk.Ir.Exec.{same_place, annotate, call_error}

-- The error of an operation behind the calls that led to it, the innermost first.
unfoldable pub unwind : List CallInstr → EvalError → EvalError
unfolding call_error
unwind [] e = e
unwind (c ∷ cs) e = unwind cs (call_error c e)

abbrev pub origin_of : CallInstr → SourceOrigin
origin_of c = record { name = c.source_name; loc = c.source_loc }

-- What the user is to see: the first place that is known, and behind it the places of the calls
-- further out, without one that is at the first place.
unfoldable pub stack : Place → List CallInstr → List SourceOrigin
stack first [] = []
stack first (c ∷ cs) =
    let rest = stack first cs in
    if str_eq c.source_loc.file ""
    then rest
    else if same_place first c.source_loc
    then rest
    else origin_of c ∷ rest

unfoldable pub report : Unavailable → List CallInstr → Unavailable
unfolding stack
report u [] = u
report u (c ∷ cs) =
    if not (str_eq u.source_loc.file "")
    then record u { call_stack = u.call_stack ++ stack u.source_loc (c ∷ cs) }
    else if str_eq c.source_loc.file ""
    then report u cs
    else record u {
      source_name = c.source_name;
      source_loc = c.source_loc;
      call_stack = u.call_stack ++ stack c.source_loc cs;
    }

module _ (u : Unavailable) (c : CallInstr) where
  annotate-unplaced : str_eq c.source_loc.file "" ≡ true → annotate u c ≡ u
  unfolding annotate
  annotate-unplaced e = rw e

  module _ (known : str_eq c.source_loc.file "" ≡ false) where
    annotate-first :
        str_eq u.source_loc.file "" ≡ true
        → annotate u c ≡ record u { source_name = c.source_name; source_loc = c.source_loc }
    unfolding annotate
    annotate-first h = rw known (rw h)

    module _ (h : str_eq u.source_loc.file "" ≡ false) where
      annotate-same : same_place u.source_loc c.source_loc ≡ true → annotate u c ≡ u
      unfolding annotate
      annotate-same o = rw known (rw h (rw o))

      annotate-other :
          same_place u.source_loc c.source_loc ≡ false
          → annotate u c ≡ record u { call_stack = u.call_stack ++ origin_of c ∷ [] }
      unfolding annotate
      annotate-other o = rw known (rw h (rw o))

unwind-placed :
    (u : Unavailable) (cs : List CallInstr)
    → str_eq u.source_loc.file "" ≡ false
    → unwind cs (unavailable u)
      ≡ unavailable (record u { call_stack = u.call_stack ++ stack u.source_loc cs })
unfolding unwind stack
unwind-placed u [] h =
    ap (λ (l : List SourceOrigin). unavailable (record u { call_stack = l }))
      (sym (append-nil u.call_stack))
unwind-placed u (c ∷ cs) h = elim (Bool-cases (str_eq c.source_loc.file "")) [
  | inl e ↦ rw (annotate-unplaced u c e) (rw e (unwind-placed u cs h))
  | inr e ↦ elim (Bool-cases (same_place u.source_loc c.source_loc)) [
    | inl o ↦ rw (annotate-same u c e h o) (rw e (rw o (unwind-placed u cs h)))
    | inr o ↦ rw (annotate-other u c e h o) (
        rw e (
          rw o (
            unwind-placed (record u { call_stack = u.call_stack ++ origin_of c ∷ [] }) cs h
            ∙ ap (λ (l : List SourceOrigin). unavailable (record u { call_stack = l }))
                (append_assoc u.call_stack (origin_of c ∷ []) (stack u.source_loc cs)))))
  ]
]

-- Where an error of an unavailable operation passes through calls, the innermost first, the error
-- at the outside keeps its own place if it has one and otherwise has the place of the first call
-- with a known one; its call stack gains the places of the calls further out that are known and
-- differ from that place, in their order.
pub unwind-report :
    (u : Unavailable) (cs : List CallInstr) → unwind cs (unavailable u) ≡ unavailable (report u cs)
unfolding unwind report
unwind-report u [] = refl
unwind-report u (c ∷ cs) = elim (Bool-cases (str_eq u.source_loc.file "")) [
  | inr h ↦ rw h (unwind-placed u (c ∷ cs) h)
  | inl h ↦ elim (Bool-cases (str_eq c.source_loc.file "")) [
    | inl e ↦ rw (annotate-unplaced u c e) (rw h (rw e (unwind-report u cs)))
    | inr e ↦ rw (annotate-first u c e h) (
        rw h (
          rw e (
            unwind-placed (record u { source_name = c.source_name; source_loc = c.source_loc }) cs
              e)))
  ]
]
