-- ===== src/Commander/Picking.antt =====
-- The kill step of src/system_commander/system_commander.c when no drone is there.
use so_lab_project.Prelude.{ℕ, suc, ◌≡◌, refl, Bool, false, List, ◌∷◌, some}
use so_lab_project.Shm.{AllDronesData, get_dron_pid}
use so_lab_project.Ipc.{Answer, done, minus_one, semaphore_lock, semaphore_unlock}
use so_lab_project.Commander.{
  Sent, repeat_step, read_locked, shutdown_requested, wait_on, mission_wait_seconds_interruptible,
  pick_dron_pid_from_shm, mission_step_kill_drones,
}

-- When the shared memory has no drone, so that the pid it hands out is -1, a repeat of the kill step in
-- which every system call succeeds ends the step with -1, with no signal sent.
pub kill_without_drone :
    (n : ℕ) (d : AllDronesData) (vs : List AllDronesData) (rest : List Answer) (checks : List Bool)
    (sent : List Sent)
    → get_dron_pid d ≡ minus_one
    → mission_step_kill_drones (suc n) (record {
      answers = done ∷ done ∷ done ∷ rest;
      checks = false ∷ false ∷ checks;
      views = d ∷ vs;
      sent = sent;
    })
      ≡ some (minus_one, record { answers = rest; checks = checks; views = vs; sent = sent })
unfolding mission_step_kill_drones repeat_step shutdown_requested mission_wait_seconds_interruptible
    wait_on pick_dron_pid_from_shm read_locked semaphore_lock semaphore_unlock
kill_without_drone n d vs rest checks sent h = rw h refl
