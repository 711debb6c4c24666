-- ===== src/Stack/Laws.antt =====
-- The stack of src/data_structures/stack.c as a bounded list: pushes and pops at one end.
use native.Mathlib.Numerals.{add-one}
use so_lab_project.Prelude.{
  suc, ◌+◌, ◌-◌, ◌%◌, ◌^◌, ◌≤◌, ◌<◌, ◌≡◌, refl, ap, ◌∙◌, subst, [], ◌∷◌, ◌++◌, some, arith, get_or,
  set, take, length, length-set, take-set, take-suc, get_elem?, get_elem?-set_self,
  get_or-get_elem?,
}
use so_lab_project.Stack.{Stack, success, error, IsValid, push_elem, pop_elem, top_elem, contents}

module _ {ℓ} {A : Type ℓ} where
  -- The stack after a push with room, and after a pop from a stack that is not empty.
  abbrev pushed : Stack A → A → Stack A
  pushed s x = record s { size = s.size + 1; cells = set s.cells s.size x }

  abbrev popped : Stack A → Stack A
  popped s = record s { size = s.size - 1 }

  push_elem-pushed :
      (s : Stack A) (x : A)
      → IsValid s
      → s.size < s.capacity
      → push_elem s x ≡ (success, pushed s x)
  unfolding push_elem
  push_elem-pushed s x v h = ground (arith, wrap)
    where
      wrap : (s.size + 1) % 2 ^ 64 ≡ s.size + 1
      wrap = omega arith

  pop_elem-popped :
      (s : Stack A) (out : A)
      → 0 < s.size
      → pop_elem s out ≡ (success, get_or s.cells (s.size - 1) out, popped s)
  unfolding pop_elem
  pop_elem-popped s out h = ground arith

  pushed-IsValid : (s : Stack A) (x : A) → IsValid s → s.size < s.capacity → IsValid (pushed s x)
  pushed-IsValid s x v h = record {
    within = omega arith;
    room = length-set s.cells s.size x ∙ v.room;
    word = v.word;
  }

  popped-IsValid : (s : Stack A) → IsValid s → IsValid (popped s)
  popped-IsValid s v = record { within = omega arith; room = v.room; word = v.word }

  contents-pushed :
      (s : Stack A) (x : A)
      → IsValid s
      → s.size < s.capacity
      → contents (pushed s x) ≡ contents s ++ x ∷ []
  contents-pushed s x v h = rw add-one (
      take-suc (set s.cells s.size x) s.size x
        (get_elem?-set_self s.cells s.size x (omega (arith, v.room)))
      ∙ ap (λ c. c ++ x ∷ []) (take-set s.cells s.size x))

  contents-popped :
      (s : Stack A) (out : A)
      → IsValid s
      → 0 < s.size
      → contents s ≡ contents (popped s) ++ get_or s.cells (s.size - 1) out ∷ []
  contents-popped s out v h =
      subst (λ n. take n s.cells ≡ contents (popped s) ++ get_or s.cells (s.size - 1) out ∷ []) back
        (take-suc s.cells (s.size - 1) _
          (get_or-get_elem? s.cells (s.size - 1) out (omega (arith, v.room))))
    where
      back : suc (s.size - 1) ≡ s.size
      back = omega arith

  -- On a valid stack with room a push succeeds and puts the element on top of the others; the stack
  -- stays valid, with the same capacity and one element more.
  pub push_elem-room :
      (s : Stack A) (x : A)
      → IsValid s
      → s.size < s.capacity
      → ((push_elem s x).0 ≡ success)
        × (contents (push_elem s x).1 ≡ contents s ++ x ∷ [])
        × IsValid (push_elem s x).1
        × ((push_elem s x).1.capacity ≡ s.capacity)
        × ((push_elem s x).1.size ≡ s.size + 1)
  push_elem-room s x v h =
      rw (push_elem-pushed s x v h)
        (refl, contents-pushed s x v h, pushed-IsValid s x v h, refl, refl)

  -- A push on a full stack fails and changes nothing.
  pub push_elem-full : (s : Stack A) (x : A) → s.capacity ≤ s.size → push_elem s x ≡ (error, s)
  unfolding push_elem
  push_elem-full s x h = ground arith

  -- A pop from an empty stack fails and changes neither the stack nor the caller's variable.
  pub pop_elem-empty : (s : Stack A) (out : A) → s.size ≡ 0 → pop_elem s out ≡ (error, out, s)
  unfolding pop_elem
  pop_elem-empty s out h = ground arith

  -- On a valid stack that is not empty a pop takes off the newest element, which is the one that
  -- `top_elem` reads; the stack stays valid, with the same capacity and one element less.
  pub pop_elem-some :
      (s : Stack A) (out : A)
      → IsValid s
      → 0 < s.size
      → let (st, x, s') = pop_elem s out in
        (st ≡ success)
        × (contents s ≡ contents s' ++ x ∷ [])
        × (top_elem s out ≡ (success, x))
        × IsValid s'
        × (s'.capacity ≡ s.capacity)
        × (s'.size + 1 ≡ s.size)
  unfolding top_elem
  pop_elem-some s out v h =
      rw (pop_elem-popped s out h)
        (refl, contents-popped s out v h, ground arith, popped-IsValid s v, refl, omega arith)

  -- What is pushed on a valid stack with room comes back by the next pop, and the elements below
  -- are as before.
  pub pop_elem-push_elem :
      (s : Stack A) (x out : A)
      → IsValid s
      → s.size < s.capacity
      → let (st, y, s') = pop_elem (push_elem s x).1 out in
        (st ≡ success) × (y ≡ x) × (contents s' ≡ contents s)
  pop_elem-push_elem s x out v h =
      rw (push_elem-pushed s x v h, pop_elem-popped (pushed s x) out (omega arith), back)
        (refl, ground (arith, read, stored), take-set s.cells s.size x)
    where
      back : s.size + 1 - 1 ≡ s.size
      back = omega arith

      fits : s.size < length s.cells
      fits = omega (arith, v.room)

      stored : get_elem? (set s.cells s.size x) s.size ≡ some x
      stored = get_elem?-set_self s.cells s.size x fits

      read :
          get_elem? (set s.cells s.size x) s.size ≡ some (get_or (set s.cells s.size x) s.size out)
      read =
          get_or-get_elem? (set s.cells s.size x) s.size out
            (omega (arith, v.room, length-set s.cells s.size x))
