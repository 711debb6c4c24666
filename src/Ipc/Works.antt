-- ===== src/Ipc/Works.antt =====
-- The loops of src/ipc/semaphore.c and src/ipc/fifo.c over calls that succeed.
use so_lab_project.Prelude.{
  ap, ◌++◌, replicate, ◌≤◌, arith, ℕ, zero, suc, ◌≡◌, refl, List, [], ◌∷◌, Option, some, ℤ, pos,
}
use so_lab_project.Ipc.{
  Answer, done, interrupted, timed_out, failed, semaphore_lock, semaphore_unlock, read_token,
  write_token, poll_token,
}
use so_lab_project.Ipc.Attempts.{Succeed, fewer}

-- `k` more than `n`.
abbrev pub more : ℕ → ℕ → ℕ
more zero n = n
more (suc k) n = suc (more k n)

-- The retry loops over calls that succeed.
abbrev pub Works : ℕ → Option (ℤ × List Answer) → Type 0
Works n o = (r : List Answer) × (o ≡ some (pos 0, r)) × Succeed n r

at_once :
    (f : List Answer → Option (ℤ × List Answer)) (n : ℕ) (answers : List Answer)
    → ((r : List Answer) → f (done ∷ r) ≡ some (pos 0, r))
    → Succeed (suc n) answers
    → Works n (f answers)
at_once f n [] e h = absurd h
at_once f n (done ∷ r) e h = (r, e r, h)
at_once f n (interrupted ∷ r) e h = absurd h
at_once f n (timed_out ∷ r) e h = absurd h
at_once f n (failed ∷ r) e h = absurd h

module _ (n : ℕ) (answers : List Answer) where
  pub write_token-Works : Succeed (suc n) answers → Works n (write_token answers)
  unfolding write_token
  write_token-Works = at_once write_token n answers (λ r. refl)

  read_token-Works : Succeed (suc n) answers → Works n (read_token answers)
  unfolding read_token
  read_token-Works = at_once read_token n answers (λ r. refl)

pub poll_token-Works :
    (n : ℕ) (answers : List Answer) → Succeed (suc (suc n)) answers → Works n (poll_token answers)
unfolding poll_token
poll_token-Works n [] h = absurd h
poll_token-Works n (done ∷ r) h = read_token-Works n r h
poll_token-Works n (interrupted ∷ r) h = absurd h
poll_token-Works n (timed_out ∷ r) h = absurd h
poll_token-Works n (failed ∷ r) h = absurd h

-- The first `k` of more calls that succeed.
pub split_answers :
    (k n : ℕ) (answers : List Answer)
    → Succeed (more k n) answers
    → (r : List Answer) × (answers ≡ replicate k done ++ r) × Succeed n r
split_answers zero n answers h = (answers, refl, h)
split_answers (suc k) n [] h = absurd h
split_answers (suc k) n (done ∷ a) h =
    let (r, e, i) = split_answers k n a h in (r, ap (λ l. done ∷ l) e, i)
split_answers (suc k) n (interrupted ∷ a) h = absurd h
split_answers (suc k) n (timed_out ∷ a) h = absurd h
split_answers (suc k) n (failed ∷ a) h = absurd h

pub at_most : (n k : ℕ) (answers : List Answer) → n ≤ k → Succeed k answers → Succeed n answers
at_most zero k answers l h = tt
at_most (suc n) zero answers l h = absurd (omega arith)
at_most (suc n) (suc k) [] l h = absurd h
at_most (suc n) (suc k) (done ∷ r) l h = at_most n k r (omega arith) h
at_most (suc n) (suc k) (interrupted ∷ r) l h = absurd h
at_most (suc n) (suc k) (timed_out ∷ r) l h = absurd h
at_most (suc n) (suc k) (failed ∷ r) l h = absurd h

-- What is known of the answers that are left while calls succeed: it lasts for `n` more calls.
pub record Supply : Type 1 where
  pub Lasts : ℕ → List Answer → Type 0
  pub one :
      (n : ℕ) (a : List Answer) → Lasts (suc n) a → (r : List Answer) × (a ≡ done ∷ r) × Lasts n r
  pub spare : (n : ℕ) (a : List Answer) → Lasts (suc n) a → Lasts n a

abbrev pub succeeding : Supply
succeeding = record { Lasts = Succeed; one = split_answers 1; spare = fewer }

module _ (A : Supply) where
  pub spare_more : (k n : ℕ) (a : List Answer) → A.Lasts (more k n) a → A.Lasts n a
  spare_more zero n a h = h
  spare_more (suc k) n a h = spare_more k n a (A.spare (more k n) a h)

  pub lock_lasts :
      (n : ℕ) (a : List Answer)
      → A.Lasts (suc n) a
      → (r : List Answer) × (semaphore_lock a ≡ some (pos 0, r)) × A.Lasts n r
  unfolding semaphore_lock
  lock_lasts n a h = let (r, e, i) = A.one n a h in (r, ap semaphore_lock e, i)

  pub unlock_lasts :
      (n : ℕ) (a : List Answer)
      → A.Lasts (suc n) a
      → (r : List Answer) × (semaphore_unlock a ≡ some (pos 0, r)) × A.Lasts n r
  unfolding semaphore_unlock
  unlock_lasts n a h = let (r, e, i) = A.one n a h in (r, ap semaphore_unlock e, i)
