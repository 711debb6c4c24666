-- ===== src/Tests/Programs.antt =====
-- Whole programs, from the start to the end.
use so_lab_project.Prelude.{
  ℕ, List, suc, ◌≤◌, arith, ◌≡◌, ◌≢◌, refl, sym, subst, true, false, [], ◌∷◌, ◌++◌, ◌+ℤ◌, some, pos,
  replicate,
}
use so_lab_project.Stack.{pop_elem}
use so_lab_project.Shm.{mission, add_dron}
use so_lab_project.Ipc.{Answer, done, is_open}
use so_lab_project.Ipc.Attempts.{Succeed}
use so_lab_project.Ipc.Works.{succeeding}
use so_lab_project.Dron.{Shared, Registration, no_room, no_memory, placed, register}
use so_lab_project.Dron.Code.{World}
use so_lab_project.Dron.Loop.{Meanwhile, main_loop}
use so_lab_project.Dron.Starting.{initial_internal_data, initial_local_data}
use so_lab_project.Dron.Stopping.{EndedWell, main_loop-EndedWell}
use so_lab_project.Setup.{defaults}
use so_lab_project.Client.{Client, heard}
use so_lab_project.Client.Leaving.{Left, SegmentLeft}
use so_lab_project.Programs.Dron
use so_lab_project.Programs.Operator as Whole
use so_lab_project.Operator.Loop.{Operator, Signals, main_loop as operate}
use so_lab_project.Operator.Lowering.{ClosedWell}
use so_lab_project.Commander.{Commander, mission_step_decrease_drones_to_0}
use so_lab_project.Commander.Lowering.{halvings, lowered_again}
use so_lab_project.Programs.Shutdown.{lowering, mission_step_decrease_drones_to_0-ClosedWell}
use so_lab_project.Programs.Lowering.{operator_main-Succeeds}
use so_lab_project.Programs.Ends.{Ended, main-Ended}
use so_lab_project.Programs.Success.{run-Succeeds, dron_main-Succeeds}
use so_lab_project.Tests.Clients.{new, new-IsNew, not_zero}
use so_lab_project.Tests.Swarms.{launched, tired}

abbrev quiet : Meanwhile
quiet = record { battery = 60; sigusr1 = false; shutdown = false }

abbrev low : Meanwhile
low = record { battery = 12; sigusr1 = false; shutdown = false }

abbrev told_to_stop : Meanwhile
told_to_stop = record { battery = 59; sigusr1 = false; shutdown = true }

abbrev five : ℕ
five = 5

five_not_zero : five ≢ 0
five_not_zero e = cc

abbrev into : Registration → Shared
into no_room = launched
into (no_memory sh) = sh
into (placed i id sh) = sh

abbrev first : Registration
first =
    register launched (initial_local_data (initial_internal_data defaults.cfg mission).0 mission 90)

there_is_room : first ≡ placed 0 1 (into first)
unfolding register add_dron pop_elem initial_local_data initial_internal_data ◌+ℤ◌
there_is_room = refl

dron_main-Succeeds_example :
    let c = new [] in
    (c' : Client) × (w : World) × (Dron.main false 90 launched mission
        (quiet ∷ told_to_stop ∷ [])
        (heard c (replicate 32 done ++ replicate 13 done))
      ≡ some (pos 0, c', some w))
    × (w.locked ≡ false)
    × (w.tokens ≡ 0)
    × Left c c'
dron_main-Succeeds_example =
    dron_main-Succeeds (quiet ∷ []) [] told_to_stop refl false 90 launched mission (new []) 0 1
      (into first) (replicate 13 done) (new-IsNew []) refl five_not_zero there_is_room tt

-- The drone's `main` at its call of `close_main`.
abbrev stopped :
    (d : Client) × (w : World) × (Dron.run false 90 launched mission
        (quiet ∷ told_to_stop ∷ [])
        (new (replicate 45 done))
      ≡ some (pos 0, d, some w))
    × (d.gate.fifo.file_descriptor ≡ pos 5)
    × Succeed 4 d.answers
stopped =
    run-Succeeds (quiet ∷ []) [] told_to_stop refl false 90 launched mission (new []) 0 1
      (into first) (replicate 13 done) refl there_is_room tt

main-Ended_example :
    Ended (pos 0) (some stopped.1)
    × ((c' : Client) × (Dron.main false 90 launched mission
            (quiet ∷ told_to_stop ∷ [])
            (new (replicate 45 done))
          ≡ some (pos 0, c', some stopped.1))
        × Left (new (replicate 45 done)) c')
main-Ended_example =
    main-Ended false 90 launched mission (quiet ∷ told_to_stop ∷ []) (new (replicate 45 done))
      stopped.0 (pos 0) (some stopped.1) (new-IsNew (replicate 45 done)) stopped.2
      (subst (λ f. f ≢ pos 0) (sym stopped.3) not_zero) stopped.4

tired_gate_open : is_open (some tired.gate) ≡ true
unfolding is_open
tired_gate_open = refl

-- A drone with a low battery comes home, and is told to stop there.
main_loop-EndedWell_example : EndedWell 2 (main_loop (low ∷ told_to_stop ∷ quiet ∷ []) tired)
main_loop-EndedWell_example =
    main_loop-EndedWell 2 (low ∷ []) (quiet ∷ []) told_to_stop tired refl tired_gate_open tt

abbrev calm : Signals
calm = record { sigusr1 = false; sigusr2 = false; shutdown = false }

abbrev fewer_drones : Signals
fewer_drones = record { sigusr1 = false; sigusr2 = true; shutdown = false }

-- Three children end before `wait` finds none.
abbrev operator_calls : List Answer
operator_calls = replicate 39 done

-- Two drones may be in the base at first.
operator_main-Succeeds_example :
    let c = new [] in
    (c' : Client) × (o : Operator) × (Whole.main launched.all
        (fewer_drones ∷ calm ∷ fewer_drones ∷ calm ∷ [])
        (heard c (replicate 25 done ++ operator_calls))
      ≡ some (pos 0, c', some o))
    × SegmentLeft c.all_drones c'.all_drones
    × SegmentLeft c.stack c'.stack
    × (c'.waits ≡ [])
operator_main-Succeeds_example =
    operator_main-Succeeds launched.all (fewer_drones ∷ calm ∷ fewer_drones ∷ []) [] calm (new [])
      operator_calls 0 [] (new-IsNew []) (refl, (refl, (refl, tt)))
      (2, refl, omega arith, omega arith) tt refl

abbrev commander : Commander
commander = record {
  answers = replicate 14 done;
  checks = replicate 6 false;
  views = launched.all ∷ halvings 2 launched.all;
  sent = [];
}

abbrev operator : Operator
operator = record {
  answers = replicate 28 done;
  locked = false;
  all = launched.all;
  created = [];
  got_sigusr1 = false;
  got_sigusr2 = false;
  got_shutdown_requested = false;
}

mission_step_decrease_drones_to_0-ClosedWell_example :
    (n : ℕ) × (c' : Commander) × (mission_step_decrease_drones_to_0 (pos 40) commander
      ≡ some (pos 0, c'))
    × (c'.sent ≡ lowered_again (pos 40) (suc n) [])
    × (n ≤ 2)
    × ClosedWell succeeding 0 (operate 6 (replicate (suc n) lowering ++ calm ∷ []) operator)
mission_step_decrease_drones_to_0-ClosedWell_example =
    mission_step_decrease_drones_to_0-ClosedWell (pos 40) 2 1 launched.all [] [] calm 6 commander
      operator refl (omega arith) refl tt tt refl refl refl tt
