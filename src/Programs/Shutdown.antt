-- ===== src/Programs/Shutdown.antt =====
-- How the commander's last step (src/system_commander/system_commander.c) ends the operator
-- (src/operator/operator.c).
use native.Mathlib.Nat.{pow-suc}
use so_lab_project.Prelude.{
  ℕ, zero, suc, ◌*◌, ◌^◌, ◌≤◌, ◌<◌, ◌≡◌, refl, ap, true, false, List, ◌∷◌, ◌++◌, some, ℤ, pos,
  arith, replicate,
}
use so_lab_project.Shm.{AllDronesData}
use so_lab_project.Ipc.Attempts.{Succeed}
use so_lab_project.Ipc.Works.{more, at_most, succeeding}
use so_lab_project.Operator.Loop.{Operator, Signals, main_loop}
use so_lab_project.Operator.Lowering.{
  NeverRaise, lowers, turn_calls, ClosedWell, main_loop-ClosedWell,
}
use so_lab_project.Commander.{Commander, mission_step_decrease_drones_to_0}
use so_lab_project.Commander.Lowering.{
  Unasked, halvings, lowered_again, loop_calls, loop_tests,
  mission_step_decrease_drones_to_0-Lowered,
}

-- A turn of the operator during which a SIGUSR2 comes.
abbrev pub lowering : Signals
lowering = record { sigusr1 = false; sigusr2 = true; shutdown = false }

lowers-replicate : (n : ℕ) → lowers (replicate n lowering) ≡ n
lowers-replicate zero = refl
lowers-replicate (suc n) = ap suc (lowers-replicate n)

replicate-NeverRaise : (n : ℕ) → NeverRaise (replicate n lowering)
replicate-NeverRaise zero = tt
replicate-NeverRaise (suc n) = (refl, replicate-NeverRaise n)

turn_calls-replicate : (n : ℕ) → turn_calls 0 (replicate n lowering) ≡ 7 * n
turn_calls-replicate zero = refl
turn_calls-replicate (suc n) = omega (arith, turn_calls-replicate n)

one_more : (n : ℕ) → 1 ≤ suc n
one_more n = omega arith

two_to : (n m : ℕ) → m < 2 ^ n → m < 2 ^ suc n
two_to n m h = omega (arith, pow-suc 2 n, h)

module _ (op_pid : ℤ) (k m : ℕ) (d : AllDronesData) (views : List AllDronesData)
    (after : List Signals) (last : Signals) where
  -- The commander's last step against an operator that handles each SIGUSR2 before the commander
  -- reads the shared memory again. No call fails, nobody asks the commander to stop, the operator
  -- gets no SIGUSR1, and the limit is positive and less than 2 ^ k: the step returns 0 behind at
  -- most k + 1 signals, and with these signals, one in each turn, the operator calls `close_main`
  -- with exit code 0.
  pub mission_step_decrease_drones_to_0-ClosedWell :
      (q : ℕ) (c : Commander) (o : Operator)
      → d.maximum_dron_in_base_count ≡ pos (suc m)
      → suc m < 2 ^ k
      → c.views ≡ d ∷ halvings k d ++ views
      → Succeed (more 2 (loop_calls k)) c.answers
      → Unasked (loop_tests k) c.checks
      → o.all ≡ d
      → o.got_sigusr1 ≡ false
      → o.got_sigusr2 ≡ false
      → Succeed (turn_calls 0 (last ∷ replicate (suc k) lowering)) o.answers
      → (n : ℕ) × (c' : Commander) × (mission_step_decrease_drones_to_0 op_pid c ≡ some (pos 0, c'))
        × (c'.sent ≡ lowered_again op_pid (suc n) c.sent)
        × (n ≤ k)
        × ClosedWell succeeding 0 (main_loop q (replicate (suc n) lowering ++ last ∷ after) o)
  mission_step_decrease_drones_to_0-ClosedWell q c o e l reads h u same e1 e2 s =
      let (n, c', ends, sends, few, small) =
        mission_step_decrease_drones_to_0-Lowered op_pid views k m d c e l reads h u in
      let enough : Succeed (turn_calls 0 (last ∷ replicate (suc n) lowering)) o.answers =
        at_most (turn_calls 0 (last ∷ replicate (suc n) lowering))
          (turn_calls 0 (last ∷ replicate (suc k) lowering)) o.answers
          (omega (arith, turn_calls-replicate n, turn_calls-replicate k, few)) s in
      (
        n,
        c',
        ends,
        sends,
        few,
        main_loop-ClosedWell succeeding 0 q (replicate (suc n) lowering) after last o
            (replicate-NeverRaise (suc n)) e1 e2
            (
              suc m,
              rw same e,
              rw (lowers-replicate n) (two_to n (suc m) small),
              one_more (lowers (replicate n lowering)),
            )
            enough,
      )
