-- ===== src/Abi/Win32.antt =====
-- codegen/llvm/abi_win32.go: the aggregates of the Windows convention on x86.
use qk.Prelude.{◌*◌, Bool, not, ◌&&◌, List, [], ◌∷◌, ◌==◌, if◌then◌else◌}
use qk.Abi.Layout.{Layout}
use qk.Abi.Chunk.{AbiChunk, chunk_int, byval, indirect, direct, is_scalar_size}

unfoldable pub param_chunks : Layout → List AbiChunk
param_chunks l =
    if l.size == 4
    then direct (chunk_int 32) 0 4 ∷ []
    else if l.size == 8
    then direct (chunk_int 32) 0 4 ∷ (direct (chunk_int 32) 4 4 ∷ [])
    else indirect (byval 4) ∷ []

unfoldable pub return_chunks : Layout → List AbiChunk
return_chunks l =
    if is_scalar_size l.size then direct (chunk_int (l.size * 8)) 0 l.size ∷ [] else []

unfoldable pub requires_sret : Layout → Bool
requires_sret l =
    (not (l.size == 1) && not (l.size == 2)) && (not (l.size == 4) && not (l.size == 8))
