-- ===== src/Ipc/Retry.antt =====
-- The retry loops: interruptions are passed over, and the first other answer decides.
use so_lab_project.Prelude.{
  ℕ, zero, suc, ◌≡◌, ◌≢◌, ◌∙◌, true, refl, List, ◌∷◌, ◌++◌, none, some, ℤ, pos, replicate,
}
use so_lab_project.Ipc.{
  Answer, done, interrupted, timed_out, failed, semaphore_lock, semaphore_unlock, read_token,
  write_token, poll_token, minus_one, FifoSem, fifo_sem_lock_timeout, is_open,
}

-- What a retry loop returns for the first answer that is no interruption.
abbrev pub verdict : Answer → ℤ
verdict done = pos 0
verdict _ = minus_one

-- However often a call is interrupted first, `semaphore_lock`, `semaphore_unlock` and the loops that
-- read or write a gate token return 0 when the call then succeeds and -1 when it fails in any other
-- way, and they make no further call.
pub retries_until_decided :
    (n : ℕ) (a : Answer) (rest : List Answer)
    → a ≢ interrupted
    → let answers = replicate n interrupted ++ a ∷ rest in
      (semaphore_lock answers ≡ some (verdict a, rest))
      × (semaphore_unlock answers ≡ some (verdict a, rest))
      × (read_token answers ≡ some (verdict a, rest))
      × (write_token answers ≡ some (verdict a, rest))
unfolding semaphore_lock semaphore_unlock read_token write_token
retries_until_decided zero done rest h = (refl, refl, refl, refl)
retries_until_decided zero interrupted rest h = absurd (h refl)
retries_until_decided zero timed_out rest h = (refl, refl, refl, refl)
retries_until_decided zero failed rest h = (refl, refl, refl, refl)
retries_until_decided (suc n) a rest h = retries_until_decided n a rest h

poll_token-skips :
    (n : ℕ) (rest : List Answer) → poll_token (replicate n interrupted ++ rest) ≡ poll_token rest
unfolding poll_token
poll_token-skips zero rest = refl
poll_token-skips (suc n) rest = poll_token-skips n rest

read_token-waits : (n : ℕ) → read_token (replicate n interrupted) ≡ none
unfolding read_token
read_token-waits zero = refl
read_token-waits (suc n) = read_token-waits n

module _ (f : FifoSem) (opened : is_open (some f) ≡ true) where
  lock_timeout-polls :
      (n : ℕ) (rest : List Answer)
      → fifo_sem_lock_timeout (some f) (replicate n interrupted ++ rest) ≡ poll_token rest
  unfolding fifo_sem_lock_timeout
  lock_timeout-polls n rest = rw opened (poll_token-skips n rest)

  -- On an open FIFO `fifo_sem_lock_timeout` passes over interruptions of `poll`; then it returns 1
  -- on a timeout and -1 on a failure, with no token read, and on readiness what the reading loop
  -- returns.
  pub lock_timeout_outcomes :
      (n m : ℕ) (a : Answer) (rest : List Answer)
      → a ≢ interrupted
      → let wait = replicate n interrupted in
        (fifo_sem_lock_timeout (some f) (wait ++ timed_out ∷ rest) ≡ some (pos 1, rest))
        × (fifo_sem_lock_timeout (some f) (wait ++ failed ∷ rest) ≡ some (minus_one, rest))
        × (fifo_sem_lock_timeout (some f) (wait ++ done ∷ (replicate m interrupted ++ a ∷ rest))
            ≡ some (verdict a, rest))
  unfolding poll_token
  lock_timeout_outcomes n m a rest h = (
    lock_timeout-polls n (timed_out ∷ rest),
    lock_timeout-polls n (failed ∷ rest),
    lock_timeout-polls n (done ∷ (replicate m interrupted ++ a ∷ rest))
        ∙ (retries_until_decided m a rest h).2,
  )

  -- The timeout covers `poll` only: once `poll` has reported a token, the function waits for as
  -- long as the `read` does not return, as when another drone was faster.
  pub lock_timeout_waits_in_read :
      (n m : ℕ)
      → fifo_sem_lock_timeout (some f) (replicate n interrupted ++ done ∷ replicate m interrupted)
        ≡ none
  unfolding poll_token
  lock_timeout_waits_in_read n m =
      lock_timeout-polls n (done ∷ replicate m interrupted) ∙ read_token-waits m
