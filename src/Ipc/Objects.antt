-- ===== src/Ipc/Objects.antt =====
-- The objects of the system and the wrappers of single calls on them: src/ipc/shm.c (segments),
-- src/ipc/semaphore.c (semaphores) and src/ipc/key.c (keys). Each of them stands for one key: `number`
-- is the id that the system gives it, and `exists` and `attached` are what the system knows.
use so_lab_project.Prelude.{ℕ, ◌+◌, ◌-◌, Bool, true, false, List, Option, none, some, ℤ, pos}
use so_lab_project.Ipc.{Answer, minus_one, attempt}

-- A segment, with the two variables that a process has for it: its id, and whether the pointer to it is
-- set.
pub record Segment : Type 0 where
  pub number : ℕ
  pub identifier : ℤ
  pub mapped : Bool
  pub exists : Bool
  pub attached : ℕ

-- A semaphore, with the variable that a process has for its id.
pub record Semaphore : Type 0 where
  pub number : ℕ
  pub identifier : ℤ
  pub exists : Bool
  pub value : ℤ

-- `shm_create` and `shm_get`: the id, or -1.
unfoldable pub shm_create : Segment → List Answer → Option (ℤ × Segment × List Answer)
shm_create g answers =
    attempt answers (λ r. some (pos g.number, record g { exists = true }, r))
      (λ r. some (minus_one, g, r))

unfoldable pub shm_get : Segment → List Answer → Option (ℤ × Segment × List Answer)
shm_get g answers = attempt answers (λ r. some (pos g.number, g, r)) (λ r. some (minus_one, g, r))

-- Whether the pointer that `shm_attach` returns is not NULL.
unfoldable pub shm_attach : Segment → List Answer → Option (Bool × Segment × List Answer)
shm_attach g answers =
    attempt answers (λ r. some (true, record g { attached = g.attached + 1 }, r))
      (λ r. some (false, g, r))

unfoldable pub shm_detach : Segment → List Answer → Option (ℤ × Segment × List Answer)
shm_detach g answers =
    attempt answers (λ r. some (pos 0, record g { attached = g.attached - 1 }, r))
      (λ r. some (minus_one, g, r))

unfoldable pub shm_destroy : Segment → List Answer → Option (ℤ × Segment × List Answer)
shm_destroy g answers =
    attempt answers (λ r. some (pos 0, record g { exists = false }, r))
      (λ r. some (minus_one, g, r))

unfoldable pub semaphore_delete : Semaphore → List Answer → Option (ℤ × Semaphore × List Answer)
semaphore_delete s answers =
    attempt answers (λ r. some (pos 0, record s { exists = false }, r))
      (λ r. some (minus_one, s, r))

-- Behind the deletion in `semaphore_create`, which is only reported.
abbrev pub given_up : Option (ℤ × Semaphore × List Answer) → Option (ℤ × Semaphore × List Answer)
given_up none = none
given_up (some (c, s, r)) = some (minus_one, s, r)

-- `semaphore_create`. C goes on behind a `semget` that failed: the two `semctl` calls that follow have
-- the id -1, which the system refuses.
unfoldable pub semaphore_create : Semaphore → ℤ → List Answer → Option (ℤ × Semaphore × List Answer)
unfolding semaphore_delete
semaphore_create s starting_value answers =
    attempt answers
      (λ r.
        let made : Semaphore = record s { exists = true } in
        attempt r (λ r. some (pos s.number, record made { value = starting_value }, r))
          (λ r. given_up (semaphore_delete made r)))
      (λ r. some (minus_one, s, r))

unfoldable pub semaphore_get : Semaphore → List Answer → Option (ℤ × Semaphore × List Answer)
semaphore_get s answers =
    attempt answers (λ r. some (pos s.number, s, r)) (λ r. some (minus_one, s, r))

-- `grab_key_from_file` with a name: `open`, `close`, `ftok`. The key itself plays no part here.
unfoldable pub grab_key_from_file : List Answer → Option (ℤ × List Answer)
grab_key_from_file answers =
    attempt answers
      (λ r.
        attempt r (λ r. attempt r (λ r. some (pos 1, r)) (λ r. some (minus_one, r)))
          (λ r. some (minus_one, r)))
      (λ r. some (minus_one, r))
