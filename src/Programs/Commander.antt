-- ===== src/Programs/Commander.antt =====
-- `main` of src/system_commander/system_commander.c.
use so_lab_project.Prelude.{Bool, List, [], Option, none, some, ℤ, pos, negsuc, ℕ}
use so_lab_project.Shm.{AllDronesData}
use so_lab_project.Commander.{Commander, run_mission_plan}
use so_lab_project.Client.{Client}
use so_lab_project.Client.Commander.{start_up, close_main, finish}
use so_lab_project.Programs.{Stop, noted}

-- Behind the start.
unfoldable pub begin : List Bool → List AllDronesData → Client → Commander
begin checks views c = record { answers = c.answers; checks = checks; views = views; sent = [] }

-- Behind the mission plan, which leaves the last test of `got_shutdown_requested`.
abbrev pub worked :
    (got_shutdown_requested : Bool) → Client → Option (ℤ × Commander) → Stop Commander
worked b c none = none
worked b c (some (r, m)) = noted (some m) (finish b r (record c { answers = m.answers }))

abbrev pub started :
    ℕ → List Bool → Bool → List AllDronesData → Option (ℤ × Client) → Stop Commander
started pid checks b views none = none
started pid checks b views (some (pos k, c)) =
    worked b c (run_mission_plan (pos pid) (begin checks views c))
started pid checks b views (some (negsuc k, c)) = noted none (close_main (pos 1) c)

-- `main` behind `process_argv_operator_pid`.
unfoldable pub main : ℕ → List Bool → Bool → List AllDronesData → Client → Stop Commander
unfolding start_up begin run_mission_plan finish close_main
main pid checks b views c = started pid checks b views (start_up c)
