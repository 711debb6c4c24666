-- ===== src/Dron/Books.antt =====
-- The registration (src/dron/dron.c) in the books of the swarm.
use so_lab_project.Prelude.{by_test, ℕ, ◌+◌, ◌≡◌, ap, ◌||◌, Option, none, some, ℤ, pos, ◌+ℤ◌}
use so_lab_project.Stack.{Stack}
use so_lab_project.Shm.{DronData, AllDronesData, is_mission, add_dron}
use so_lab_project.Shm.Books.{books, booked, add_dron-books}
use so_lab_project.Dron.{
  Shared, Registration, no_room, no_memory, placed, has_room, take_id, register,
}
use so_lab_project.Main.{lost_total}

-- What a registration does to the books.
abbrev pub Books : ℤ × ℕ × ℕ → Registration → Type 0
Books (c, l, n) no_room = Unit {0}
Books (c, l, n) (no_memory sh) = books sh.all ≡ (c, l, n + 1)
Books (c, l, n) (placed i id sh) = books sh.all ≡ (c +ℤ pos 1, l, n + 1)

one_id : ℤ × ℕ × ℕ → ℤ × ℕ × ℕ
one_id (c, l, n) = (c, l, n + 1)

take_id-Books :
    (k : ℤ × ℕ × ℕ) (r : Option ℕ × AllDronesData × Stack ℕ)
    → books r.1 ≡ booked r.0 k
    → Books k (take_id r)
unfolding take_id lost_total one_id
take_id-Books (c, l, n) (none, d, free) e = ap one_id e
take_id-Books (c, l, n) (some i, d, free) e = ap one_id e

pub register-Books : (sh : Shared) (x : DronData) → Books (books sh.all) (register sh x)
unfolding register
register-Books sh x =
    by_test (Books (books sh.all)) (has_room sh.all || is_mission x.location) _ _
      (λ open_.
        take_id-Books (books sh.all) (add_dron sh.all sh.free x) (add_dron-books sh.all sh.free x))
      (λ shut. tt)
