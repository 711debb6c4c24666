-- ===== src/Stack.antt =====
-- src/data_structures/stack.c: a bounded stack laid out in one memory block. An element is the cell
-- of `elem_size` bytes at offset `i * elem_size` of `data[]`, so `cells` has one entry for each
-- element that the block has room for, and a popped element stays in its cell. A pointer that may be
-- NULL is an `Option`; `size_t` wraps at 2 ^ 64.
pub mod Laws
pub mod Memory
use so_lab_project.Prelude.{
  ℕ, ◌+◌, ◌-◌, ◌*◌, ◌%◌, ◌^◌, ◌≤◌, ◌<◌, ◌≡◌, Bool, ◌||◌, List, Option, none, some, ℤ, pos, negsuc,
  leb, ◌==◌, if◌then◌else◌, set, take, length, get_or,
}

pub record Stack {ℓ} (A : Type ℓ) : Type ℓ where
  pub capacity : ℕ
  pub size : ℕ
  pub elem_size : ℕ
  pub cells : List A

-- `STACK_SUCCESS` and `STACK_ERROR`.
pub data Status : Type 0 where
  success error : Status

-- `header` is `sizeof(Stack)`, which depends on the platform's `max_align_t`.
unfoldable pub bytes_needed : (header capacity elem_size : ℕ) → ℕ
bytes_needed header capacity elem_size = (header + capacity * elem_size) % 2 ^ 64

module _ {ℓ} {A : Type ℓ} where
  -- `Stack_init` behind its NULL guard.
  unfoldable pub init_block : Stack A → ℕ → ℕ → Status × Stack A
  init_block s capacity elem_size =
      if capacity == 0 || elem_size == 0
      then (error, s)
      else (success, record s { capacity = capacity; size = 0; elem_size = elem_size })

  unfoldable pub init : Option (Stack A) → ℕ → ℕ → Status × Option (Stack A)
  unfolding init_block
  init none capacity elem_size = (error, none)
  init (some s) capacity elem_size = let (st, s') = init_block s capacity elem_size in (st, some s')

  -- The `int` that the C function returns: -1 for NULL, else the truth value.
  unfoldable pub is_empty : Option (Stack A) → ℤ
  is_empty none = negsuc 0
  is_empty (some s) = if s.size == 0 then pos 1 else pos 0

  unfoldable pub full : Stack A → Bool
  full s = leb s.capacity s.size

  unfoldable pub is_full : Option (Stack A) → ℤ
  unfolding full
  is_full none = negsuc 0
  is_full (some s) = if full s then pos 1 else pos 0

  -- `Stack_push` behind its NULL guard: the capacity test, the copy into the cell, the new size.
  unfoldable pub push_elem : Stack A → A → Status × Stack A
  push_elem s x =
      if leb s.capacity s.size
      then (error, s)
      else (success, record s { size = (s.size + 1) % 2 ^ 64; cells = set s.cells s.size x })

  unfoldable pub push : Option (Stack A) → Option A → Status × Option (Stack A)
  unfolding push_elem
  push none elem = (error, none)
  push (some s) none = (error, some s)
  push (some s) (some x) = let (st, s') = push_elem s x in (st, some s')

  -- `Stack_pop` behind its NULL guard; `out` is what the caller's variable held before.
  unfoldable pub pop_elem : Stack A → A → Status × A × Stack A
  pop_elem s out =
      if s.size == 0
      then (error, out, s)
      else (success, get_or s.cells (s.size - 1) out, record s { size = s.size - 1 })

  unfoldable pub pop : Option (Stack A) → Option A → Status × Option A × Option (Stack A)
  unfolding pop_elem
  pop none out = (error, out, none)
  pop (some s) none = (error, none, some s)
  pop (some s) (some out) = let (st, x, s') = pop_elem s out in (st, some x, some s')

  -- `Stack_top` behind its NULL guard.
  unfoldable pub top_elem : Stack A → A → Status × A
  top_elem s out = if s.size == 0 then (error, out) else (success, get_or s.cells (s.size - 1) out)

  unfoldable pub top : Option (Stack A) → Option A → Status × Option A
  unfolding top_elem
  top none out = (error, out)
  top (some s) none = (error, none)
  top (some s) (some out) = let (st, x) = top_elem s out in (st, some x)

  -- The stored elements, the bottom first.
  abbrev pub contents : Stack A → List A
  contents s = take s.size s.cells

  -- The block is as large as it was asked for, and the size stays within it.
  pub record IsValid (s : Stack A) : Type 0 where
    pub within : s.size ≤ s.capacity
    pub room : length s.cells ≡ s.capacity
    pub word : s.capacity < 2 ^ 64
