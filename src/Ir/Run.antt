-- ===== src/Ir/Run.antt =====
-- ir/eval.go: the run of a function.
use qk.Prelude.{
  ℕ, zero, suc, ◌+◌, String, Option, none, some, List, [], ◌∷◌, length, ◌==◌, if◌then◌else◌,
}
use qk.Types.Equals.{Resolver}
use qk.Ir.Instr.{value, Instr, store, Parameter, Block, Function}
use qk.Ir.Value.{
  FloatOps, EvalValue, unavailable, depth_exceeded, argument_count, missing_block, fell_off, Eval,
  ok, err, endless, ◌>>=◌, Memory, new_cell,
}
use qk.Ir.Exec.{Frame, stay, go, done, set_value, set_slot, set_memory, unplaced, exec}

-- The value that the first store of a slot in a block writes there, if it is one.
unfoldable pub stored_value : ℕ → List Instr → Option ℕ
stored_value s [] = none
stored_value s (store s' (value v t) ∷ is) = if s' == s then some v else stored_value s is
stored_value s (i ∷ is) = stored_value s is

-- `block`
unfoldable pub find_block : ℕ → List Block → Option Block
find_block id [] = none
find_block id (b ∷ bs) = if b.id == id then some b else find_block id bs

module _ (F : FloatOps) (k : Resolver) (levels : ℕ) where
  open F use {Float}

  -- The value of an argument is also that of the store of its parameter in an entry block.
  unfoldable pub enter_blocks :
      ℕ → ℕ → EvalValue Float → List Block → Frame F k levels → Frame F k levels
  unfolding stored_value
  enter_blocks entry s v [] f = f
  enter_blocks entry s v (b ∷ bs) f = enter_blocks entry s v bs (
      if b.id == entry
      then elim (stored_value s b.instrs) [ none ↦ f | some d ↦ set_value F k levels d v f ]
      else f)

  -- The loop over the parameters; there are as many arguments.
  unfoldable pub bind_parameters :
      List Parameter → List (EvalValue Float) → Frame F k levels → Frame F k levels
  unfolding enter_blocks
  bind_parameters (p ∷ ps) (v ∷ vs) f =
      let (c, m) = new_cell F v f.memory in
      bind_parameters ps vs (
        enter_blocks f.function.entry p.slot v f.function.blocks
          (set_slot F k levels p.slot c (set_memory F k levels m f)))
  bind_parameters _ _ f = f

  -- What the instructions of a block lead to: the next block, or the value of the function.
  pub data Outcome : Type 0 where
    enters : ℕ → Frame F k levels → Outcome
    returns : EvalValue Float → Memory F → Outcome

  unfoldable pub run_instrs :
      (String → List (EvalValue Float) → Memory F → Eval (EvalValue Float × Memory F))
      → ℕ
      → ℕ
      → List Instr
      → Frame F k levels
      → Eval Outcome
  run_instrs run at index [] f = err fell_off
  run_instrs run at index (i ∷ is) f = exec F k levels run at index i f >>= λ r. elim r.1 [
    | stay ↦ run_instrs run at (index + 1) is r.0
    | go b ↦ ok (enters b r.0)
    | done v ↦ ok (returns v r.0.memory)
  ]

  -- The loop over the blocks, of so many rounds at most.
  unfoldable pub run_blocks :
      (String → List (EvalValue Float) → Memory F → Eval (EvalValue Float × Memory F))
      → ℕ
      → ℕ
      → Frame F k levels
      → Eval (EvalValue Float × Memory F)
  unfolding find_block run_instrs
  run_blocks run zero b f = endless
  run_blocks run (suc rounds) b f = elim (find_block b f.function.blocks) [
    | none ↦ err missing_block
    | some block ↦ run_instrs run b 0 block.instrs f >>= λ o. elim o [
      | enters b' f' ↦ run_blocks run rounds b' f'
      | returns v m ↦ ok (v, m)
    ]
  ]

  abbrev pub new_frame : Function → Memory F → Frame F k levels
  new_frame fn m = record { function = fn; values = λ i. none; slots = λ s. none; memory = m }

  -- `run`, with so many calls left below `MaxDepth`; each call's loop has so many rounds.
  unfoldable pub run_function :
      (String → Option Function)
      → ℕ
      → ℕ
      → String
      → List (EvalValue Float)
      → Memory F
      → Eval (EvalValue Float × Memory F)
  unfolding bind_parameters run_blocks
  run_function functions rounds zero name vs m = elim (functions name) [
    | none ↦ err (unavailable unplaced)
    | some fn ↦ err depth_exceeded
  ]
  run_function functions rounds (suc depth) name vs m = elim (functions name) [
    | none ↦ err (unavailable unplaced)
    | some fn ↦
        if length vs == length fn.parameters
        then run_blocks (run_function functions rounds depth) rounds fn.entry
            (bind_parameters fn.parameters vs (new_frame fn m))
        else err argument_count
  ]
