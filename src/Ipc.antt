-- ===== src/Ipc.antt =====
-- src/ipc/semaphore.c and src/ipc/fifo.c over the answers of the system: what each `semop`, `read`,
-- `write`, `poll`, `open`, `fcntl`, `mkfifo`, `close` or `unlink` comes back with, in the order of the
-- calls. A function returns its C result with the answers that are left, or `none` while it waits.
pub mod Retry
pub mod Gate
pub mod Objects
pub mod Attempts
pub mod Works
pub mod Acts
use so_lab_project.Prelude.{
  ℕ, zero, suc, ◌+◌, ◌≡◌, Bool, true, false, ◌||◌, List, [], ◌∷◌, Option, none, some, ℤ, pos,
  negsuc, ltb_ℤ, leb_ℤ, leb, length, ◌==◌, if◌then◌else◌, pos_part,
}

-- Success; -1 with `errno == EINTR`; `poll`'s 0; any other failure.
pub data Answer : Type 0 where
  done interrupted timed_out failed : Answer

abbrev pub minus_one : ℤ
minus_one = negsuc 0

-- One system call: what follows its success, and what follows its failure.
abbrev pub attempt {ℓ} :
    {R : Type ℓ} → List Answer → (List Answer → Option R) → (List Answer → Option R) → Option R
attempt [] good bad = none
attempt (done ∷ rest) good bad = good rest
attempt (_ ∷ rest) good bad = bad rest

-- `semaphore_lock`.
unfoldable pub semaphore_lock : List Answer → Option (ℤ × List Answer)
semaphore_lock [] = none
semaphore_lock (done ∷ rest) = some (pos 0, rest)
semaphore_lock (interrupted ∷ rest) = semaphore_lock rest
semaphore_lock (timed_out ∷ rest) = some (minus_one, rest)
semaphore_lock (failed ∷ rest) = some (minus_one, rest)

-- `semaphore_unlock`.
unfoldable pub semaphore_unlock : List Answer → Option (ℤ × List Answer)
semaphore_unlock [] = none
semaphore_unlock (done ∷ rest) = some (pos 0, rest)
semaphore_unlock (interrupted ∷ rest) = semaphore_unlock rest
semaphore_unlock (timed_out ∷ rest) = some (minus_one, rest)
semaphore_unlock (failed ∷ rest) = some (minus_one, rest)

-- `FIFO_SEM`; the path is its characters.
pub record FifoSem : Type 0 where
  pub path : List ℕ
  pub file_descriptor : ℤ
  pub capacity : ℤ

-- The loop of `fifo_sem_lock` (and the inner one of `fifo_sem_lock_timeout`): read one token.
unfoldable pub read_token : List Answer → Option (ℤ × List Answer)
read_token [] = none
read_token (done ∷ rest) = some (pos 0, rest)
read_token (interrupted ∷ rest) = read_token rest
read_token (timed_out ∷ rest) = some (minus_one, rest)
read_token (failed ∷ rest) = some (minus_one, rest)

-- The loop of `fifo_sem_unlock` (and the inner one of `fifo_sem_create`): write one token.
unfoldable pub write_token : List Answer → Option (ℤ × List Answer)
write_token [] = none
write_token (done ∷ rest) = some (pos 0, rest)
write_token (interrupted ∷ rest) = write_token rest
write_token (timed_out ∷ rest) = some (minus_one, rest)
write_token (failed ∷ rest) = some (minus_one, rest)

unfoldable pub is_open : Option FifoSem → Bool
is_open none = false
is_open (some f) = leb_ℤ (pos 0) f.file_descriptor

unfoldable pub fifo_sem_lock : Option FifoSem → List Answer → Option (ℤ × List Answer)
unfolding is_open read_token
fifo_sem_lock f answers = if is_open f then read_token answers else some (minus_one, answers)

unfoldable pub fifo_sem_unlock : Option FifoSem → List Answer → Option (ℤ × List Answer)
unfolding is_open write_token
fifo_sem_unlock f answers = if is_open f then write_token answers else some (minus_one, answers)

-- The outer loop of `fifo_sem_lock_timeout`: poll, then read.
unfoldable pub poll_token : List Answer → Option (ℤ × List Answer)
unfolding read_token
poll_token [] = none
poll_token (timed_out ∷ rest) = some (pos 1, rest)
poll_token (interrupted ∷ rest) = poll_token rest
poll_token (failed ∷ rest) = some (minus_one, rest)
poll_token (done ∷ rest) = read_token rest

unfoldable pub fifo_sem_lock_timeout : Option FifoSem → List Answer → Option (ℤ × List Answer)
unfolding is_open poll_token
fifo_sem_lock_timeout f answers =
    if is_open f then poll_token answers else some (minus_one, answers)

-- The starting tokens in `fifo_sem_create`: the result, the tokens that were written, the answers
-- left behind the first failure.
abbrev pub one_more : Option (ℤ × ℕ × List Answer) → Option (ℤ × ℕ × List Answer)
one_more none = none
one_more (some (c, k, rest)) = some (c, suc k, rest)

abbrev pub then_more :
    Option (ℤ × List Answer)
    → (List Answer → Option (ℤ × ℕ × List Answer))
    → Option (ℤ × ℕ × List Answer)
then_more none f = none
then_more (some (pos c, rest)) f = one_more (f rest)
then_more (some (negsuc c, rest)) f = some (minus_one, 0, rest)

unfoldable pub write_tokens : ℕ → List Answer → Option (ℤ × ℕ × List Answer)
unfolding write_token
write_tokens zero answers = some (pos 0, 0, answers)
write_tokens (suc n) answers = then_more (write_token answers) (write_tokens n)
