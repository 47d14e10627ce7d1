-- ===== src/Abi/Win64.antt =====
-- codegen/llvm/abi_win64.go: the aggregates of the Windows x64 convention.
use qk.Prelude.{◌*◌, Bool, not, ◌&&◌, List, [], ◌∷◌, ◌==◌, if◌then◌else◌}
use qk.Abi.Layout.{Layout}
use qk.Abi.Chunk.{AbiChunk, chunk_int, no_attributes, indirect, direct, is_scalar_size}

-- `win64ABIGenerator.aggregateParamChunks`; `aggregateReturnChunks` is the same.
unfoldable pub param_chunks : Layout → List AbiChunk
param_chunks l =
    if is_scalar_size l.size
    then direct (chunk_int (l.size * 8)) 0 l.size ∷ []
    else indirect no_attributes ∷ []

unfoldable pub requires_sret : Layout → Bool
requires_sret l =
    (not (l.size == 1) && not (l.size == 2)) && (not (l.size == 4) && not (l.size == 8))
