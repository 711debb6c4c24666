-- ===== src/Programs/Operator.antt =====
-- `main` of src/operator/operator.c.
use so_lab_project.Prelude.{ℕ, false, List, [], Option, none, some, ℤ, pos, negsuc}
use so_lab_project.Shm.{AllDronesData}
use so_lab_project.Setup.{Configuration}
use so_lab_project.Operator.Loop.{
  Operator, Progress, goes_on, closes, waits, go_on, generate_starting_drones, Signals, main_loop,
}
use so_lab_project.Client.{Client}
use so_lab_project.Client.Operator.{start_up, close_main}
use so_lab_project.Programs.{Stop, closed}

-- `local_configuration` is zero before the copy.
abbrev pub starting_drones : Option Configuration → ℕ
starting_drones none = 0
starting_drones (some cfg) = cfg.starting_drones_count

unfoldable pub begin : AllDronesData → Client → Operator
begin all c = record {
  answers = c.answers;
  locked = false;
  all = all;
  created = [];
  got_sigusr1 = false;
  got_sigusr2 = false;
  got_shutdown_requested = false;
}

-- The starting drones and the loop.
unfoldable pub work : ℕ → List Signals → Operator → Progress
unfolding generate_starting_drones main_loop
work n signals o = go_on (generate_starting_drones n o) (main_loop n signals)

-- The work ended in a call of `close_main`.
abbrev pub worked : Client → Progress → Stop Operator
worked c (goes_on o) = none
worked c (closes e o) = some (pos e, record c { answers = o.answers }, some o)
worked c waits = none

abbrev pub started : AllDronesData → List Signals → Option (ℤ × Client) → Stop Operator
started all signals none = none
started all signals (some (pos k, c)) =
    worked c (work (starting_drones c.configuration) signals (begin all c))
started all signals (some (negsuc k, c)) = some (pos 1, c, none)

-- `main` up to `close_main`.
unfoldable pub run : AllDronesData → List Signals → Client → Stop Operator
unfolding start_up begin work
run all signals c = started all signals (start_up c)

unfoldable pub main : AllDronesData → List Signals → Client → Stop Operator
unfolding run close_main
main all signals c = closed close_main (run all signals c)
