-- ===== src/Tests/Launches.antt =====
-- The main process, the log lines and the report on small inputs.
use so_lab_project.Prelude.{
  ℕ, ◌+◌, ◌≡◌, ◌≢◌, refl, true, false, List, [], ◌∷◌, ◌++◌, some, none, pos, arith, replicate,
  total,
}
use so_lab_project.Ipc.{Answer, done, interrupted, failed, minus_one}
use so_lab_project.Ipc.Objects.{
  Segment, Semaphore, shm_create, shm_attach, semaphore_create, grab_key_from_file,
}
use so_lab_project.Printer.{print_internal}
use so_lab_project.Printer.Entries.{
  Process, print_msg, print_msg_color, print_error_impl, format_length, InsideUpTo,
  entries-InsideUpTo,
}
use so_lab_project.Printer.Logging.{Logs, print_internal-Logs}
use so_lab_project.Main.{report}
use so_lab_project.Main.Launch.{
  Main, create_shm_config, create_segment, create_semaphore, create_all_drones_data, set_up,
}
use so_lab_project.Main.Launch.Sound.{IsUntouched, IsComplete, Ends}
use so_lab_project.Main.Launch.Stages.{set_up-Ends}
use so_lab_project.Main.Closing.{main}
use so_lab_project.Main.Closing.Success.{Launched, IsGone, main-Succeeds}
use so_lab_project.Main.Closing.Leftover.{Cleaned, main-Cleaned}
use so_lab_project.Shm.Consistency.{live}
use so_lab_project.System.Ledger.{wasted_on, report_balances}
use so_lab_project.Tests.Swarms.{small, block, raw_stack, launched, launch, small-IsFresh, landed}

abbrev segment : ℕ → Segment
segment n = record {
  number = n;
  identifier = minus_one;
  mapped = false;
  exists = false;
  attached = 0;
}

abbrev semaphore : ℕ → Semaphore
semaphore n = record { number = n; identifier = minus_one; exists = false; value = pos 0 }

-- The main process before its set-up.
abbrev started : List Answer → Main
started answers = record {
  answers = answers;
  settings = small;
  raw_drones = block;
  raw_stack = raw_stack;
  descriptor = 5;
  children = (70, 71);
  config = segment 1;
  all_drones = segment 2;
  stack = segment 3;
  config_semaphore = semaphore 4;
  all_drones_semaphore = semaphore 5;
  gate_semaphore = semaphore 6;
  gate = record {
    fifo = record { path = []; file_descriptor = minus_one; capacity = pos 0 };
    exists = false;
    is_open = false;
    tokens = 0;
  };
  operator_pid = minus_one;
  system_commander_pid = minus_one;
  configured = none;
  launched = none;
}

started-IsUntouched : (answers : List Answer) → IsUntouched (started answers)
started-IsUntouched answers = (
  (refl, refl, refl, refl),
  (refl, refl, refl, refl),
  (refl, refl, refl, refl),
  (refl, refl),
  (refl, refl),
  (refl, refl),
  (refl, refl),
)

set_up-Ends_example : Ends IsComplete (set_up (started (replicate 32 done)))
set_up-Ends_example =
    set_up-Ends (started (replicate 32 done)) (started-IsUntouched (replicate 32 done))

-- The second key cannot be had: the set-up ends with the configuration in place.
abbrev no_second_key : List Answer
no_second_key = replicate 7 done ++ failed ∷ replicate 13 done

abbrev half_way : Main
half_way = record (started (replicate 13 done)) {
  config = record { number = 1; identifier = pos 1; mapped = true; exists = true; attached = 1 };
  configured = some small.cfg;
  config_semaphore = record { number = 4; identifier = pos 4; exists = true; value = pos 1 };
}

stops_half_way : set_up (started no_second_key) ≡ some (minus_one, half_way)
unfolding set_up create_shm_config create_all_drones_data create_segment create_semaphore shm_create
    shm_attach semaphore_create grab_key_from_file
stops_half_way = refl

not_zero : half_way.gate.fifo.file_descriptor ≢ pos 0
not_zero e = cc

main-Cleaned_example :
    (m' : Main) × (main (started no_second_key) ≡ some (minus_one, m')) × Cleaned half_way m'
main-Cleaned_example =
    main-Cleaned (started no_second_key) half_way minus_one (started-IsUntouched no_second_key)
      stops_half_way not_zero tt

five_not_zero : ◌≢◌ {A = ℕ} 5 0
five_not_zero e = cc

main-Succeeds_example :
    (m1 : Main) × (m' : Main) × (set_up (started (replicate 45 done)) ≡ some (pos 0, m1))
    × Launched (started (replicate 45 done)) m1
    × (main (started (replicate 45 done)) ≡ some (pos 0, m'))
    × IsGone m'
main-Succeeds_example =
    main-Succeeds (started (replicate 45 done)) (started-IsUntouched (replicate 45 done))
      small-IsFresh five_not_zero refl

print_internal-Logs_example : Logs (
    print_internal
      (pos 4)
      (record { console_prefix = 40; file_prefix = 30; message = 20 })
      (interrupted ∷ done ∷ done ∷ []))
print_internal-Logs_example =
    print_internal-Logs (pos 4) (record { console_prefix = 40; file_prefix = 30; message = 20 })
      (interrupted ∷ done ∷ done ∷ [])

report_balances_example :
    ((report landed.last.shared.all).total ≡ pos (total live landed.last.shared.all.drones))
    × ((report landed.last.shared.all).warned ≡ false)
    × (total live landed.last.shared.all.drones
          + (report landed.last.shared.all).lost
          + wasted_on landed.reach
          + 1
        ≡ (report landed.last.shared.all).next_dron_id)
report_balances_example =
    report_balances small block raw_stack launched landed.last small-IsFresh launch landed.reach

abbrev drone_process : Process
drone_process = record { name = 4; color = 11; pid = 5 }

entries-InsideUpTo_example :
    InsideUpTo (11 + (21 + 4 + 5) + 40) (print_msg drone_process (pos 4) 40 (done ∷ done ∷ []))
    × InsideUpTo
        (5 + (21 + 4 + 5) + 40)
        (print_msg_color drone_process (pos 4) 5 40 (done ∷ done ∷ []))
    × InsideUpTo
        (5 + (21 + 4 + 5) + format_length 20 3 10 30 25)
        (print_error_impl (λ n. n) drone_process (pos 4) 20 3 10 30 25 (done ∷ done ∷ []))
unfolding format_length
entries-InsideUpTo_example =
    entries-InsideUpTo (λ n. n) drone_process (pos 4) 5 40 20 3 10 30 25 (done ∷ done ∷ [])
      (omega arith) (omega arith) (omega arith) (omega arith) (omega arith) (omega arith)
