-- ===== src/Dron/Calls.antt =====
-- The system calls of a drone: each returns 0 and has its effect, or fails, or waits.
use so_lab_project.Prelude.{
  ℕ, ◌≡◌, refl, ◌⊎◌, inl, inr, Bool-cases, true, false, List, [], ◌∷◌, Option, none, some, ℤ, pos,
  negsuc,
}
use so_lab_project.Ipc.{
  Answer, done, interrupted, timed_out, failed, minus_one, FifoSem, is_open, semaphore_lock,
  semaphore_unlock, read_token, write_token, poll_token, fifo_sem_lock_timeout, fifo_sem_unlock,
}
use so_lab_project.Dron.Code.{
  World, Outcome, ret, blocked, Code, follow, ◌>>=◌, or_fail, system, lock, unlock,
}

-- The results of a retry loop.
abbrev pub Verdict : Option (ℤ × List Answer) → Type 0
Verdict r =
    (r ≡ none)
    ⊎ (((rest : List Answer) × (r ≡ some (pos 0, rest)))
        ⊎ ((rest : List Answer) × (r ≡ some (minus_one, rest))))

pub semaphore_lock-Verdict : (answers : List Answer) → Verdict (semaphore_lock answers)
unfolding semaphore_lock
semaphore_lock-Verdict [] = inl refl
semaphore_lock-Verdict (done ∷ rest) = inr (inl (rest, refl))
semaphore_lock-Verdict (interrupted ∷ rest) = semaphore_lock-Verdict rest
semaphore_lock-Verdict (timed_out ∷ rest) = inr (inr (rest, refl))
semaphore_lock-Verdict (failed ∷ rest) = inr (inr (rest, refl))

pub semaphore_unlock-Verdict : (answers : List Answer) → Verdict (semaphore_unlock answers)
unfolding semaphore_unlock
semaphore_unlock-Verdict [] = inl refl
semaphore_unlock-Verdict (done ∷ rest) = inr (inl (rest, refl))
semaphore_unlock-Verdict (interrupted ∷ rest) = semaphore_unlock-Verdict rest
semaphore_unlock-Verdict (timed_out ∷ rest) = inr (inr (rest, refl))
semaphore_unlock-Verdict (failed ∷ rest) = inr (inr (rest, refl))

read_token-Verdict : (answers : List Answer) → Verdict (read_token answers)
unfolding read_token
read_token-Verdict [] = inl refl
read_token-Verdict (done ∷ rest) = inr (inl (rest, refl))
read_token-Verdict (interrupted ∷ rest) = read_token-Verdict rest
read_token-Verdict (timed_out ∷ rest) = inr (inr (rest, refl))
read_token-Verdict (failed ∷ rest) = inr (inr (rest, refl))

write_token-Verdict : (answers : List Answer) → Verdict (write_token answers)
unfolding write_token
write_token-Verdict [] = inl refl
write_token-Verdict (done ∷ rest) = inr (inl (rest, refl))
write_token-Verdict (interrupted ∷ rest) = write_token-Verdict rest
write_token-Verdict (timed_out ∷ rest) = inr (inr (rest, refl))
write_token-Verdict (failed ∷ rest) = inr (inr (rest, refl))

poll_token-Verdict :
    (answers : List Answer)
    → Verdict (poll_token answers)
      ⊎ ((rest : List Answer) × (poll_token answers ≡ some (pos 1, rest)))
unfolding poll_token
poll_token-Verdict [] = inl (inl refl)
poll_token-Verdict (done ∷ rest) = inl (read_token-Verdict rest)
poll_token-Verdict (interrupted ∷ rest) = poll_token-Verdict rest
poll_token-Verdict (timed_out ∷ rest) = inr (rest, refl)
poll_token-Verdict (failed ∷ rest) = inl (inr (inr (rest, refl)))

pub fifo_sem_lock_timeout-Verdict :
    (f : FifoSem) (answers : List Answer)
    → Verdict (fifo_sem_lock_timeout (some f) answers)
      ⊎ ((rest : List Answer) × (fifo_sem_lock_timeout (some f) answers ≡ some (pos 1, rest)))
unfolding fifo_sem_lock_timeout
fifo_sem_lock_timeout-Verdict f answers = elim (Bool-cases (is_open (some f))) [
  | inl open_ ↦ rw open_ (poll_token-Verdict answers)
  | inr shut ↦ rw shut (inl (inr (inr (answers, refl))))
]

pub fifo_sem_unlock-Verdict :
    (f : FifoSem) (answers : List Answer) → Verdict (fifo_sem_unlock (some f) answers)
unfolding fifo_sem_unlock
fifo_sem_unlock-Verdict f answers = elim (Bool-cases (is_open (some f))) [
  | inl open_ ↦ rw open_ (write_token-Verdict answers)
  | inr shut ↦ rw shut (inr (inr (answers, refl)))
]

-- A property of results that every failure and every wait has.
pub record Tolerant (P : Outcome × World → Type 0) : Type 0 where
  pub waits : (w : World) → P (blocked, w)
  pub fails : (c : ℕ) (w : World) → P (ret (negsuc c), w)

module _ (P : Outcome × World → Type 0) (tol : Tolerant P) where
  verdict_rule :
      (o : Option (ℤ × List Answer)) (f : World → World) (k : Code) (w : World)
      → Verdict o
      → ((rest : List Answer) → P (k (f (record w { answers = rest }))))
      → P (follow (system o f w) (λ l. or_fail l k))
  verdict_rule o f k w (inl e) h = rw e (tol.waits (record w { answers = [] }))
  verdict_rule o f k w (inr (inl (rest, e))) h = rw e (h rest)
  verdict_rule o f k w (inr (inr (rest, e))) h = rw e (tol.fails 0 (record w { answers = rest }))

  pub lock_rule :
      (k : Code) (w : World)
      → ((rest : List Answer) → P (k (record w { answers = rest; locked = true })))
      → P ((lock >>= λ l. or_fail l k) w)
  unfolding lock
  lock_rule k w h =
      verdict_rule (semaphore_lock w.answers) _ k w (semaphore_lock-Verdict w.answers) h

  pub unlock_rule :
      (k : Code) (w : World)
      → ((rest : List Answer) → P (k (record w { answers = rest; locked = false })))
      → P ((unlock >>= λ l. or_fail l k) w)
  unfolding unlock
  unlock_rule k w h =
      verdict_rule (semaphore_unlock w.answers) _ k w (semaphore_unlock-Verdict w.answers) h
