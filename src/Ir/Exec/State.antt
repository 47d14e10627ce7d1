-- ===== src/Ir/Exec/State.antt =====
-- ir/eval.go: the frame of a call, and what an instruction leads to.
use qk.Prelude.{ℕ, String, Option, some, ◌==◌, if◌then◌else◌, str_eq}
use qk.Types.Equals.{Resolver}
use qk.Ir.Instr.{Operand, Function}
use qk.Ir.Value.{FloatOps, EvalValue, Eval, ok, ◌>>=◌, Memory}
use qk.Ir.Operand.{operand}

module _ (F : FloatOps) (k : Resolver) (levels : ℕ) where
  open F use {Float}

  -- `evalFrame`, and the memory.
  pub record Frame : Type 0 where
    pub function : Function
    pub values : ℕ → Option (EvalValue Float)
    pub slots : ℕ → Option ℕ
    pub memory : Memory F

  pub data Flow : Type 0 where
    stay : Flow
    go : ℕ → Flow
    done : EvalValue Float → Flow

  abbrev pub set_value : ℕ → EvalValue Float → Frame → Frame
  set_value d v f = record f { values = λ i. if i == d then some v else f.values i }

  abbrev pub set_slot : ℕ → ℕ → Frame → Frame
  set_slot s c f = record f { slots = λ i. if i == s then some c else f.slots i }

  abbrev pub set_memory : Memory F → Frame → Frame
  set_memory m f = record f { memory = m }

  abbrev pub set_global : String → EvalValue Float → Memory F → Memory F
  set_global name v m = record m { globals = λ n. if str_eq n name then some v else m.globals n }

  -- The frame goes on with a value.
  abbrev pub yields : ℕ → EvalValue Float → Frame → Eval (Frame × Flow)
  yields d v f = ok (set_value d v f, stay)

  -- `e.operand(o, frame)`
  unfoldable pub read_operand : Operand → Frame → Eval (EvalValue Float × Frame)
  unfolding operand
  read_operand o f = operand F k levels o f.values f.memory >>= λ r. ok (r.0, set_memory r.1 f)
