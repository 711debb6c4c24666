-- ===== src/Tests/Calls.antt =====
-- The gate, the start of a drone and the commander on small inputs.
use so_lab_project.Prelude.{negsuc, ◌≡◌, refl, true, false, [], ◌∷◌, some, pos, replicate, total}
use so_lab_project.Ipc.{done, interrupted, failed, minus_one, FifoSem}
use so_lab_project.Ipc.Gate.{Place, fifo_sem_create, fifo_sem_get}
use so_lab_project.Ipc.Gate.Laws.{Creates, fifo_sem_create-Creates, Gets, fifo_sem_get-Gets}
use so_lab_project.Shm.{get_dron_pid}
use so_lab_project.Dron.Code.{World, pass_the_gate_fifo}
use so_lab_project.Dron.Gate.{Passes, pass_the_gate_fifo-Passes}
use so_lab_project.Commander.{Commander, run_mission_plan}
use so_lab_project.Commander.Signals.{Within, is_add, is_suicide_request, run_mission_plan-Within}
use so_lab_project.Tests.Swarms.{launched, fresh, flying}

abbrev gate : FifoSem
gate = record { path = 46 ∷ []; file_descriptor = pos 5; capacity = pos 2 }

abbrev nowhere : Place
nowhere = record {
  fifo = record gate { file_descriptor = negsuc 0 };
  exists = false;
  is_open = false;
  tokens = 0;
}

fifo_sem_create-Creates_example :
    Creates
      (46 ∷ [])
      (pos 2)
      5
      (fifo_sem_create (some (46 ∷ [])) (pos 2) 5 nowhere (replicate 6 done))
fifo_sem_create-Creates_example =
    fifo_sem_create-Creates (46 ∷ []) (pos 2) 5 nowhere (replicate 6 done) refl refl

fifo_sem_get-Gets_example :
    Gets
      (46 ∷ [])
      5
      nowhere
      (fifo_sem_get (some (46 ∷ [])) true 5 nowhere (done ∷ done ∷ failed ∷ done ∷ []))
fifo_sem_get-Gets_example =
    fifo_sem_get-Gets (46 ∷ []) true 5 nowhere (done ∷ done ∷ failed ∷ done ∷ []) refl

abbrev at_gate : World
at_gate = record {
  answers = done ∷ interrupted ∷ done ∷ done ∷ [];
  locked = false;
  tokens = 0;
  taken = 0;
  shared = launched;
  me = fresh;
  local_data = flying;
  gate = gate;
  battery_percentage = 15;
  is_charging = false;
  got_sigusr1 = false;
  got_shutdown_requested = false;
}

pass_the_gate_fifo-Passes_example : Passes at_gate (pass_the_gate_fifo at_gate)
pass_the_gate_fifo-Passes_example = pass_the_gate_fifo-Passes at_gate

abbrev command : Commander
command = record {
  answers = replicate 12 done;
  checks = replicate 12 false;
  views = launched.all ∷ [];
  sent = [];
}

run_mission_plan-Within_example :
    Within is_add (total is_add []) 3 (run_mission_plan (pos 70) command)
    × Within is_suicide_request (total is_suicide_request []) 10 (run_mission_plan (pos 70) command)
run_mission_plan-Within_example = run_mission_plan-Within (pos 70) command

nobody : get_dron_pid launched.all ≡ minus_one
unfolding get_dron_pid
nobody = refl
