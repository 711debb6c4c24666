-- ===== src/Dron/Living.antt =====
-- A drone whose calls succeed (src/dron/dron.c): no function of a round waits or fails.
use so_lab_project.Prelude.{
  by_test, ℕ, zero, suc, ◌+◌, ◌-◌, ◌≡◌, true, false, List, some, pos, negsuc, ltb, leb, leb_ℤ,
}
use so_lab_project.Shm.{DestructionReason, out_of_power, decommissioned, suicide, is_base}
use so_lab_project.Ipc.{Answer, is_open, fifo_sem_lock_timeout, fifo_sem_unlock}
use so_lab_project.Ipc.Attempts.{Succeed}
use so_lab_project.Dron.{reserve}
use so_lab_project.Dron.Code.{
  World, Outcome, Code, ret, exited, blocked, ◌>>=◌, or_fail, return, lock, unlock, take_token,
  give_token, pass_the_gate_fifo, leave_swarm, process_sigusr1, battery_state_check,
  force_base_return, force_leave_base, go_for_charge, arrive, depart, through_gate, close_main,
}
use so_lab_project.Ipc.Works.{
  more, spare_more, succeeding, lock_lasts, unlock_lasts, write_token-Works, poll_token-Works,
}

-- A call that came back with 0, so that `n` more calls succeed and the gate is still open, or that
-- ended the process with 0, so that `q` more calls succeed.
abbrev pub Lively : ℕ → ℕ → Outcome × World → Type 0
Lively q n (ret (pos (suc c)), w) = ⊥
Lively q n (ret (pos zero), w) = Succeed n w.answers × (is_open (some w.gate) ≡ true)
Lively q n (ret (negsuc c), w) = ⊥
Lively q n (exited zero, w) = Succeed q w.answers
Lively q n (exited (suc e), w) = ⊥
Lively q n (blocked, w) = ⊥

-- The state before a call.
abbrev pub Ready : ℕ → World → Type 0
Ready n w = Succeed n w.answers × (is_open (some w.gate) ≡ true)

module _ (P : Outcome × World → Type 0) (n : ℕ) (k : Code) (w : World) where
  pub lock_works :
      Ready (suc n) w
      → ((r : List Answer) → Succeed n r → P (k (record w { answers = r; locked = true })))
      → P ((lock >>= λ l. or_fail l k) w)
  unfolding lock
  lock_works h f = let (r, e, i) = lock_lasts succeeding n w.answers h.0 in rw e (f r i)

  pub unlock_works :
      Ready (suc n) w
      → ((r : List Answer) → Succeed n r → P (k (record w { answers = r; locked = false })))
      → P ((unlock >>= λ l. or_fail l k) w)
  unfolding unlock
  unlock_works h f = let (r, e, i) = unlock_lasts succeeding n w.answers h.0 in rw e (f r i)

module _ (n : ℕ) where
  -- The way through the gate takes three calls.
  pass_works :
      (P : Outcome × World → Type 0) (k : Code) (w : World)
      → Ready (more 3 n) w
      → ((r : List Answer)
          → Succeed n r
          → P (k (record w { answers = r; tokens = w.tokens + 1 - 1; taken = w.taken + 1 })))
      → P (through_gate k w)
  unfolding through_gate pass_the_gate_fifo take_token give_token fifo_sem_lock_timeout
      fifo_sem_unlock
  pass_works P k w (h, o) f =
      let (r, e, i) = poll_token-Works (suc n) w.answers h in
      let (s, e', i') = write_token-Works n r i in rw (o, e, o, e') (f s i')

module _ (q n : ℕ) (spare : (a : List Answer) → Succeed n a → Succeed q a) where
  leave_swarm-Lively :
      (reason : DestructionReason) (w : World)
      → Ready (more 7 n) w
      → (m : ℕ) → Lively q m (leave_swarm reason w)
  unfolding leave_swarm close_main
  leave_swarm-Lively reason w h m = lock_works (Lively q m) (more 6 n) _ w h λ r i.
      unlock_works (Lively q m) (more 5 n) _ _ (i, h.1)
        λ s j. spare s (spare_more succeeding 5 n s j)

  arrive-Lively : (w : World) → Ready (more 2 n) w → Lively q n (arrive w)
  unfolding arrive
  arrive-Lively w h =
      lock_works (Lively q n) (suc n) _ w h
        λ r i. unlock_works (Lively q n) n _ _ (i, h.1) λ s j. (j, h.1)

  depart-Lively : (w : World) → Ready (more 2 n) w → Lively q n (depart w)
  unfolding depart
  depart-Lively w h =
      lock_works (Lively q n) (suc n) _ w h
        λ r i. unlock_works (Lively q n) n _ _ (i, h.1) λ s j. (j, h.1)

  go_for_charge-Lively : (w : World) → Ready (more 7 n) w → Lively q n (go_for_charge w)
  unfolding go_for_charge
  go_for_charge-Lively w h = lock_works (Lively q n) (more 6 n) _ w h λ r i.
      unlock_works (Lively q n) (more 5 n) _ _ (i, h.1)
        λ s j.
          let (go, sh, me) = reserve w.shared w.me in
          let v : World = record w { answers = s; locked = false; shared = sh; me = me } in
          by_test (λ code. Lively q n (code v)) go (through_gate arrive) (return (pos 0))
            (λ goes.
              pass_works (more 2 n) (Lively q n) arrive v (j, h.1)
                (λ t k. arrive-Lively _ (k, h.1)))
            (λ stays. (spare_more succeeding 5 n s j, h.1))

  pub process_sigusr1-Lively :
      (w : World) → Ready (more 7 n) w → Lively q (more 7 n) (process_sigusr1 w)
  unfolding process_sigusr1
  process_sigusr1-Lively w h =
      by_test (Lively q (more 7 n)) (ltb 20 w.battery_percentage) _ _
        (λ strong. leave_swarm-Lively suicide (record w { got_sigusr1 = false }) h (more 7 n))
        (λ weak. h)

  pub battery_state_check-Lively :
      (w : World) → Ready (more 7 n) w → Lively q (more 7 n) (battery_state_check w)
  unfolding battery_state_check
  battery_state_check-Lively w h =
      by_test (Lively q (more 7 n)) (leb w.battery_percentage 0) _ _
        (λ empty. leave_swarm-Lively out_of_power w h (more 7 n)) (λ charged. h)

  pub rest-Lively : (w : World) → Ready (more 7 n) w → Ready n w
  rest-Lively w h = (spare_more succeeding 7 n w.answers h.0, h.1)

  pub force_base_return-Lively : (w : World) → Ready (more 7 n) w → Lively q n (force_base_return w)
  unfolding force_base_return
  force_base_return-Lively w h =
      by_test (Lively q n) (ltb w.battery_percentage 20) _ _
        (λ low.
          by_test (Lively q n) (leb_ℤ w.me.loading_cycles_left (pos 0)) _ _
            (λ worn. leave_swarm-Lively decommissioned w h n) (λ fit. go_for_charge-Lively w h))
        (λ high. rest-Lively w h)

  pub force_leave_base-Lively : (w : World) → Ready (more 7 n) w → Lively q n (force_leave_base w)
  unfolding force_leave_base
  force_leave_base-Lively w h =
      by_test (Lively q n) (leb 100 w.battery_percentage) _ _
        (λ full.
          by_test (Lively q n) (is_base w.me.location) _ _
            (λ home.
              pass_works (more 2 n) (Lively q n) depart w
                (spare_more succeeding 2 (more 5 n) w.answers h.0, h.1)
                (λ t k. depart-Lively _ (k, h.1)))
            (λ away. rest-Lively w h))
        (λ low. rest-Lively w h)
