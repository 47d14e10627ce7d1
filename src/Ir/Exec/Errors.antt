-- ===== src/Ir/Exec/Errors.antt =====
-- ir/eval.go: the errors of calls and where they are.
use qk.Prelude.{
  Bool, true, ◌&&◌, ◌||◌, Option, none, some, [], ◌∷◌, ◌++◌, ◌==◌, if◌then◌else◌, str_eq,
}
use qk.Ir.Instr.{Place, SourceOrigin, CallInstr}
use qk.Ir.Value.{Unavailable, EvalError, unavailable, in_call, Eval, ok, err, endless}

-- `sameEvalLocation`
unfoldable pub same_place : Place → Place → Bool
same_place a b = str_eq a.file b.file && a.offset == b.offset && a.end_offset == b.end_offset

-- `annotateUnavailable`: the innermost call names the place, and the others make the stack.
unfoldable pub annotate : Unavailable → CallInstr → Unavailable
annotate u c =
    if str_eq c.source_loc.file ""
    then u
    else if str_eq u.source_loc.file ""
    then record u { source_name = c.source_name; source_loc = c.source_loc }
    else if same_place u.source_loc c.source_loc
    then u
    else record u {
      call_stack = u.call_stack ++ record { name = c.source_name; loc = c.source_loc } ∷ [];
    }

-- `errors.As(err, &unavailable)`
unfoldable pub find_unavailable : EvalError → Option Unavailable
find_unavailable (unavailable u) = some u
find_unavailable (in_call name e) = find_unavailable e
find_unavailable _ = none

-- The error of a call.
unfoldable pub call_error : CallInstr → EvalError → EvalError
unfolding find_unavailable
call_error c e = elim (find_unavailable e) [
  | some u ↦ unavailable (annotate u c)
  | none ↦ in_call c.name e
]

unfoldable pub catch : {A : Type 0} → (EvalError → EvalError) → Eval A → Eval A
catch f (ok a) = ok a
catch f (err e) = err (f e)
catch f endless = endless

-- A call that the evaluator does not make.
unfoldable pub is_indirect : CallInstr → Bool
is_indirect c = elim c.callee [ some o ↦ true | none ↦ c.is_generic || c.has_requirement ]

abbrev pub unplaced : Unavailable
unplaced = record {
  source_name = "";
  source_loc = record { file = ""; offset = 0; end_offset = 0 };
  call_stack = [];
}

abbrev pub at_origin : Option SourceOrigin → Unavailable
at_origin none = unplaced
at_origin (some o) = record unplaced { source_name = o.name; source_loc = o.loc }
