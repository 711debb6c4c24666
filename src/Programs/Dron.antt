-- ===== src/Programs/Dron.antt =====
-- `main` of src/dron/dron.c.
use so_lab_project.Prelude.{ℕ, Bool, false, List, Option, none, some, ℤ, pos, negsuc}
use so_lab_project.Shm.{Location, undefine}
use so_lab_project.Dron.{Shared, DronInternalData}
use so_lab_project.Dron.Code.{World, Outcome, ret, exited, blocked, Code, ◌>>=◌}
use so_lab_project.Dron.Loop.{Meanwhile, main_loop, try_adding_self_to_shm, or_close}
use so_lab_project.Dron.Starting.{initial_local_data}
use so_lab_project.Client.{Client}
use so_lab_project.Client.Dron.{start_up, close_main}
use so_lab_project.Programs.{Stop, closed}

-- `dron_internal_data` and `is_charging` before any assignment.
abbrev pub unset : DronInternalData × Bool
unset = (
  record {
    my_id = 0;
    my_index = pos 0;
    maximum_charge_time = 0;
    loading_cycles_left = pos 0;
    have_reserved_space = false;
    gate_time_to_pass = 0;
    work_interval = 0;
    location = undefine;
  },
  false,
)

abbrev pub or_unset : Option (DronInternalData × Bool) → DronInternalData × Bool
or_unset none = unset
or_unset (some d) = d

-- Behind the start: the three assignments to `dron_local_data`, and the full battery of the start.
-- `shared` is what the two segments hold.
unfoldable pub begin : (pid : ℕ) → Shared → Location → Client → World
unfolding initial_local_data
begin pid shared starting_location c =
    let (me, charging) = or_unset c.internal in
    record {
      answers = c.answers;
      locked = false;
      tokens = 0;
      taken = 0;
      shared = shared;
      me = me;
      local_data = initial_local_data me starting_location pid;
      gate = c.gate.fifo;
      battery_percentage = 100;
      is_charging = charging;
      got_sigusr1 = false;
      got_shutdown_requested = false;
    }

-- The registration and the loop.
unfoldable pub work : List Meanwhile → Code
unfolding try_adding_self_to_shm main_loop
work meanwhile = try_adding_self_to_shm >>= λ r. or_close r (main_loop meanwhile)

-- The work ended in a call of `close_main`. `battery_working` is what the battery thread wrote.
abbrev pub worked : (battery_working : Bool) → Client → Outcome × World → Stop World
worked b c (ret r, w) = none
worked b c (exited e, w) =
    some (pos e, record c { answers = w.answers; battery_working = b }, some w)
worked b c (blocked, w) = none

abbrev pub started :
    Bool → ℕ → Shared → Location → List Meanwhile → Option (ℤ × Client) → Stop World
started b pid shared l meanwhile none = none
started b pid shared l meanwhile (some (pos k, c)) =
    worked b c (work meanwhile (begin pid shared l c))
started b pid shared l meanwhile (some (negsuc k, c)) = some (pos 1, c, none)

-- `main` behind the argument and up to `close_main`.
unfoldable pub run : Bool → ℕ → Shared → Location → List Meanwhile → Client → Stop World
unfolding start_up begin work
run b pid shared l meanwhile c = started b pid shared l meanwhile (start_up l c)

unfoldable pub main : Bool → ℕ → Shared → Location → List Meanwhile → Client → Stop World
unfolding run close_main
main b pid shared l meanwhile c = closed close_main (run b pid shared l meanwhile c)
