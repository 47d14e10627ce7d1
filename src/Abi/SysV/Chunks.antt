-- ===== src/Abi/SysV/Chunks.antt =====
-- codegen/llvm/abi_sysvamd64.go: the chunks of an aggregate cover it, and agree with the choice of a
-- return slot in memory.
use qk.Prelude.{
  some_inj, sym, Holds-bind, Holds-any, Holds-of_eq, get_elem?, ℕ, ◌+◌, ◌-◌, ◌*◌, ◌/◌, ◌≤◌, ◌<◌,
  max, min, true, false, Bool, String, Option, none, some, ◌>>=◌, List, [], ◌∷◌, if◌then◌else◌,
  length, replicate, length-replicate, Returns, Holds, ◌≡◌, refl, arith,
}
use qk.Types.Primitive.{Primitive}
use qk.Types.Syntax.{Ty}
use qk.Abi.Layout.{Machine, Layout, layout_of}
use qk.Abi.Layout.Bounds.{IsMachine, IsLayout}
use qk.Abi.Chunk.{AbiChunk, byval, indirect}
use qk.Abi.SysV.{
  AbiClass, class_none, Classes, Names, classify, class_chunk, class_chunks, sysv_param_chunks,
  sysv_requires_sret,
}
use qk.Abi.SysV.Bounds.{Sized, IsCField}
use qk.Abi.SysV.Classify.{classify-Returns}

-- Chunks one after the other from eightbyte `i` on, which end at byte `size`: all but the last are
-- full eightbytes.
abbrev pub Covers : ℕ → ℕ → List AbiChunk → Type 0
Covers size i [] = size ≤ i * 8
Covers size i (c ∷ cs) =
    (i * 8 < size)
    × (c.offset ≡ some (i * 8))
    × (c.size ≡ min (size - i * 8) 8)
    × Covers size (i + 1) cs

class_chunks-Covers :
    (size i : ℕ) (cs : List AbiClass) (floats : List (List Primitive))
    → i + length cs ≡ (size + 7) / 8
    → Holds (Covers size i) (class_chunks size i cs floats)
unfolding class_chunks
class_chunks-Covers size i [] floats h = omega arith
class_chunks-Covers size i (c ∷ cs) floats h =
    Holds-bind (λ fs. Unit) (Covers size i) (get_elem? floats i) _ (Holds-any _)
      λ fs u.
        Holds-bind (λ t. Unit) (Covers size i) (class_chunk c fs (min (size - i * 8) 8)) _
          (Holds-any _)
          λ t u'.
            Holds-bind (Covers size (i + 1)) (Covers size i) (class_chunks size (i + 1) cs floats) _
              (class_chunks-Covers size (i + 1) cs floats (omega arith))
              λ rest covers. (omega arith, refl, refl, covers)

-- `class_chunks` after `classify`, on slices with one entry for each eightbyte.
classified-Covers :
    (size : ℕ) (m : Option Classes)
    → Returns (Sized ((size + 7) / 8)) m
    → Holds (Covers size 0) (m >>= λ st. class_chunks size 0 st.classes st.floats)
classified-Covers size none h = absurd h
classified-Covers size (some st) h =
    class_chunks-Covers size 0 st.classes st.floats (omega (arith, h.classes_length))

module _ (k : Names) (e : Machine) (ok : IsMachine e)
    (al_ok : (m n : String) (r : Option ℕ) → Holds IsLayout (k.layout_at m n r))
    (wide : e.pointer_bytes ≡ some 8) (t : Ty) (c : IsCField t) {l : Layout}
    (known : layout_of k.layout_at e t ≡ some l) where
  abbrev start : Classes
  start = record {
    classes = replicate ((l.size + 7) / 8) class_none;
    floats = replicate ((l.size + 7) / 8) [];
  }

  -- On a target with 8-byte pointers, for a type of known layout made of non-void primitives,
  -- flags, enums, pointers, slices, arrays, structs and unions with no alias reference,
  -- classifySysVAggregate returns, with one class and one list of floats for each eightbyte: no
  -- index is out of range.
  pub classify_in_bounds : Returns (Sized ((l.size + 7) / 8)) (classify k e t 0 start)
  classify_in_bounds =
      classify-Returns k e ok al_ok wide ((l.size + 7) / 8) t 0 start l c known
        (record { classes_length = length-replicate _ _; floats_length = length-replicate _ _ })
        (omega arith)

  -- On a target with 8-byte pointers, for a type of known layout made of non-void primitives,
  -- flags, enums, pointers, slices, arrays, structs and unions with no alias reference: where
  -- requiresSRet answers true, the chunks that aggregateParamChunks returns are one byval chunk
  -- aligned to at least 8; where it answers false, they cover the type, one for each eightbyte.
  pub sysv_param_chunks-requires_sret :
      (b : Bool) {chunks : List AbiChunk}
      → sysv_requires_sret k e t ≡ some b
      → sysv_param_chunks k e t ≡ some chunks
      → (if b then chunks ≡ indirect (byval (max 8 l.align)) ∷ [] else Covers l.size 0 chunks)
  unfolding sysv_requires_sret sysv_param_chunks
  sysv_param_chunks-requires_sret true h g =
      let m = rw known at h in let g' = rw (known, m) at g in sym (some_inj g')
  sysv_param_chunks-requires_sret false h g =
      let m = rw known at h in
      let g' = rw (known, m) at g in
      Holds-of_eq (Covers l.size 0)
        (classify k e t 0 start >>= λ st. class_chunks l.size 0 st.classes st.floats)
        (classified-Covers l.size (classify k e t 0 start) classify_in_bounds) g'
