-- ===== src/Ir/Value.antt =====
-- ir/eval.go: values at compile time, and the memory that they share. A slice of values is an array
-- with an address: a Go assignment of an `EvalValue` copies the address and not the array. Floats are
-- a parameter.
use qk.Prelude.{
  ℕ, String, Bool, true, false, Option, none, some, List, [], ◌∷◌, ◌++◌, length, get_elem?, set?,
}
use qk.Types.Primitive.{bool}
use qk.Types.Syntax.{Ty, primitive}
use qk.Ir.Int.{ℤ}
use qk.Ir.Instr.{SourceOrigin, Place}

-- What the evaluator uses of Go's `float64`, with `strconv.ParseFloat` and the bits of a float.
pub record FloatOps : Type 1 where
  pub Float : Type 0
  pub float_zero : Float
  pub float_add : Float → Float → Float
  pub float_sub : Float → Float → Float
  pub float_mul : Float → Float → Float
  pub float_div : Float → Float → Float
  pub float_neg : Float → Float
  -- `float64(float32(x))`
  pub round : Float → Float
  pub is_nan : Float → Bool
  pub float_less : Float → Float → Bool
  pub parse : List ℕ → Option Float
  pub bits64 : Float → ℕ
  pub bits32 : Float → ℕ
  pub from_bits64 : ℕ → Float
  pub from_bits32 : ℕ → Float

-- `evalPath`
pub record EvalPath : Type 0 where
  pub index : ℕ
  pub typ : Ty
  pub is_union : Bool

-- `evalPointer`: the cell of a variable, and the way into it.
pub record EvalPointer : Type 0 where
  pub root : ℕ
  pub path : List EvalPath

-- `EvalValue`; a nil slice has no address.
pub record EvalValue (Float : Type 0) : Type 0 where
  pub typ : Option Ty
  pub integer : Option ℤ
  pub float : Option Float
  pub boolean : Bool
  pub aggregate : Option ℕ
  pub place : Option EvalPointer

-- `CompileTimeUnavailableError`, without its texts.
pub record Unavailable : Type 0 where
  pub source_name : String
  pub source_loc : Place
  pub call_stack : List SourceOrigin

pub data EvalError : Type 0 where
  unavailable : Unavailable → EvalError
  depth_exceeded argument_count missing_block uninitialized_slot unavailable_slot : EvalError
  invalid_pointer no_field out_of_range empty_union unavailable_global : EvalError
  not_integers not_numbers division_by_zero shift_amount undefined_value : EvalError
  invalid_integer invalid_float reached_unreachable fell_off : EvalError
  in_call : String → EvalError → EvalError

-- `endless` is a loop that still runs after the rounds that it was given.
pub data Eval (A : Type 0) : Type 0 where
  ok : A → Eval A
  err : EvalError → Eval A
  endless : Eval A

infixl 5 ◌>>=◌
abbrev pub ◌>>=◌ : {A B : Type 0} → Eval A → (A → Eval B) → Eval B
ok a >>= f = f a
err e >>= f = err e
endless >>= f = endless

-- The error where there is nothing.
abbrev pub or_err : {A : Type 0} → EvalError → Option A → Eval A
or_err e none = err e
or_err e (some a) = ok a

abbrev pub guard : Bool → EvalError → Eval (Unit {0})
guard true e = ok tt
guard false e = err e

module _ (F : FloatOps) where
  open F use {Float, float_zero, bits64, bits32, from_bits64, from_bits32}

  -- The variables, the arrays and the globals.
  pub record Memory : Type 0 where
    pub cells : List (EvalValue Float)
    pub arrays : List (List (EvalValue Float))
    pub globals : String → Option (EvalValue Float)

  abbrev pub plain : Option Ty → EvalValue Float
  plain t = record {
    typ = t;
    integer = none;
    float = none;
    boolean = false;
    aggregate = none;
    place = none;
  }

  -- `EvalInteger`, `EvalFloat` and `EvalBool`.
  abbrev pub eval_integer : ℤ → Option Ty → EvalValue Float
  eval_integer n t = record (plain t) { integer = some n }

  abbrev pub eval_float : Float → Option Ty → EvalValue Float
  eval_float x t = record (plain t) { float = some x }

  abbrev pub eval_bool : Bool → EvalValue Float
  eval_bool b = record (plain (some (primitive bool))) { boolean = b }

  -- `value := …`, whose address is taken.
  abbrev pub new_cell : EvalValue Float → Memory → ℕ × Memory
  new_cell v m = (length m.cells, record m { cells = m.cells ++ v ∷ [] })

  abbrev pub new_array : List (EvalValue Float) → Memory → ℕ × Memory
  new_array vs m = (length m.arrays, record m { arrays = m.arrays ++ vs ∷ [] })

  abbrev pub elements : Memory → Option ℕ → List (EvalValue Float)
  elements m none = []
  elements m (some a) = elim (get_elem? m.arrays a) [ none ↦ [] | some vs ↦ vs ]

  abbrev pub aggregate_of : Option Ty → List (EvalValue Float) → Memory → EvalValue Float × Memory
  aggregate_of t vs m =
      let (a, m') = new_array vs m in (record (plain t) { aggregate = some a }, m')

  -- `value.Aggregate[index] = v`, a panic out of range.
  abbrev pub set_element : Option ℕ → ℕ → EvalValue Float → Memory → Option Memory
  set_element none i v m = none
  set_element (some a) i v m = elim (get_elem? m.arrays a) [
    | none ↦ none
    | some vs ↦ elim (set? vs i v) [
      | none ↦ none
      | some vs' ↦ elim (set? m.arrays a vs') [
        | none ↦ none
        | some arrays ↦ some (record m { arrays = arrays })
      ]
    ]
  ]
