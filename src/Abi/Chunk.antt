-- ===== src/Abi/Chunk.antt =====
-- codegen/llvm/foreign_abi.go: `abiChunk`, one piece in which an aggregate is passed, and the scratch
-- space for the pieces. The LLVM type names that the code formats are constructors here.
use qk.Prelude.{
  ◌||◌, ℕ, ◌+◌, ◌≤◌, ◌≡◌, max, Bool, true, false, Option, none, some, List, [], ◌∷◌, ◌==◌,
  if◌then◌else◌, arith,
}
use qk.Types.Primitive.{Primitive}
use qk.Abi.Layout.{Layout}

pub data ChunkType : Type 0 where
  -- `ptr`, `iN` and `[2 x i64]`
  chunk_ptr : ChunkType
  chunk_int : ℕ → ChunkType
  chunk_int_pair : ChunkType
  -- `float`, `double`, `<2 x float>` and `[N x float]` or `[N x double]`
  chunk_float chunk_double chunk_float_pair : ChunkType
  chunk_floats : ℕ → Primitive → ChunkType

pub data ChunkAttributes : Type 0 where
  no_attributes : ChunkAttributes
  -- ` byval(T) align N`
  byval : ℕ → ChunkAttributes
  -- ` alignstack(8)`
  align_stack : ChunkAttributes

-- `abiChunk`; the offset -1 is `none`.
pub record AbiChunk : Type 0 where
  pub type_name : ChunkType
  pub attributes : ChunkAttributes
  pub offset : Option ℕ
  pub size : ℕ

-- The aggregate is passed behind a pointer.
abbrev pub indirect : ChunkAttributes → AbiChunk
indirect a = record { type_name = chunk_ptr; attributes = a; offset = none; size = 0 }

abbrev pub direct : ChunkType → ℕ → ℕ → AbiChunk
direct t o s = record { type_name = t; attributes = no_attributes; offset = some o; size = s }

-- `case 1, 2, 4, 8`.
abbrev pub is_scalar_size : ℕ → Bool
is_scalar_size s = ((s == 1) || (s == 2)) || ((s == 4) || (s == 8))

-- The body of the loop of `abiScratchAllocation`.
unfoldable pub widen : ℕ → AbiChunk → ℕ
widen size c = elim c.offset [ none ↦ size | some o ↦ max size (o + c.size) ]

unfoldable pub scratch_size : ℕ → List AbiChunk → ℕ
unfolding widen
scratch_size size [] = size
scratch_size size (c ∷ cs) = scratch_size (widen size c) cs

-- What is allocated: the type itself, or an array of bytes.
pub data Allocation : Type 0 where
  own_type : Allocation
  bytes : ℕ → Allocation

-- `abiScratchAllocation`: the allocation, and whether it starts as zeros.
unfoldable pub abi_scratch_allocation : Layout → List AbiChunk → Allocation × Bool
unfolding scratch_size
abi_scratch_allocation l chunks =
    let scratch = scratch_size l.size chunks in
    if scratch == l.size then (own_type, false) else (bytes scratch, true)

abbrev pub allocated : Layout → Allocation → ℕ
allocated l own_type = l.size
allocated l (bytes n) = n

-- Every chunk with an offset ends within `n` bytes.
abbrev pub ChunksWithin : ℕ → List AbiChunk → Type 0
ChunksWithin n [] = Unit
ChunksWithin n (c ∷ cs) = ((o : ℕ) → c.offset ≡ some o → o + c.size ≤ n) × ChunksWithin n cs

le-widen : (s : ℕ) (c : AbiChunk) → s ≤ widen s c
unfolding widen
le-widen s c = ground arith

widen-within : (s o : ℕ) (c : AbiChunk) → c.offset ≡ some o → o + c.size ≤ widen s c
unfolding widen
widen-within s o c h = ground arith

le-scratch_size : (s : ℕ) (cs : List AbiChunk) → s ≤ scratch_size s cs
unfolding scratch_size
le-scratch_size s [] = omega arith
le-scratch_size s (c ∷ cs) = omega (arith, le-widen s c, le-scratch_size (widen s c) cs)

scratch_size-within : (s : ℕ) (cs : List AbiChunk) → ChunksWithin (scratch_size s cs) cs
unfolding scratch_size
scratch_size-within s [] = tt
scratch_size-within s (c ∷ cs) = (
  λ o h. omega (arith, widen-within s o c h, le-scratch_size (widen s c) cs),
  scratch_size-within (widen s c) cs,
)

allocated-scratch_size :
    (l : Layout) (cs : List AbiChunk)
    → allocated l (abi_scratch_allocation l cs).0 ≡ scratch_size l.size cs
unfolding abi_scratch_allocation
allocated-scratch_size l cs = ground arith

-- The scratch space of abiScratchAllocation holds the aggregate and every chunk that has an
-- offset.
pub abi_scratch_allocation-ChunksWithin :
    (l : Layout) (chunks : List AbiChunk)
    → (l.size ≤ allocated l (abi_scratch_allocation l chunks).0)
      × ChunksWithin (allocated l (abi_scratch_allocation l chunks).0) chunks
abi_scratch_allocation-ChunksWithin l chunks =
    rw (allocated-scratch_size l chunks)
      (le-scratch_size l.size chunks, scratch_size-within l.size chunks)
