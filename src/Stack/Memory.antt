-- ===== src/Stack/Memory.antt =====
-- The block that is asked for holds every element that the stack writes.
use so_lab_project.Prelude.{ℕ, ◌+◌, ◌*◌, ◌≤◌, ◌<◌, arith}
use so_lab_project.Stack.{bytes_needed}

-- For a header of at most 64 bytes, at most 2500000 elements (`ARGS_MAX_MEMORY`) and elements of at
-- most 64 bytes, the size does not wrap, and the cell of each element lies inside the block.
pub bytes_needed-fits :
    (header capacity elem_size i : ℕ)
    → header ≤ 64
    → capacity ≤ 2500000
    → elem_size ≤ 64
    → i < capacity
    → header + i * elem_size + elem_size ≤ bytes_needed header capacity elem_size
unfolding bytes_needed
bytes_needed-fits header capacity elem_size i hh hc he hi = omega (arith, whole, cell)
  where
    whole : capacity * elem_size ≤ 2500000 * 64
    whole = grind arith

    cell : (i + 1) * elem_size ≤ capacity * elem_size
    cell = grind arith
