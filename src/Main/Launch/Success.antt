-- ===== src/Main/Launch/Success.antt =====
-- The set-up of the main process when no call fails (src/main.c).
use so_lab_project.Prelude.{
  ◌+◌, ◌≡◌, refl, ap, ◌∙◌, true, List, ◌∷◌, ◌++◌, Option, some, ℤ, pos, replicate,
}
use so_lab_project.Ipc.{Answer, done}
use so_lab_project.Ipc.Acts.{follow}
use so_lab_project.Ipc.Gate.{fifo_sem_create}
use so_lab_project.Ipc.Objects.{
  Segment, Semaphore, shm_create, shm_attach, semaphore_create, grab_key_from_file,
}
use so_lab_project.Dron.{Shared}
use so_lab_project.Setup.{create_shm_all_drones_data}
use so_lab_project.Main.Launch.{
  Main, heard, laid_out, create_segment, create_semaphore, create_shm_config,
  put_all_drones_semaphore, create_all_drones_data, create_gate_semaphore, gate_path,
  create_gate_fifo_sem, creat_operator, creat_system_commander, set_up,
}

abbrev made : Segment → Segment
made g = record g {
  identifier = pos g.number;
  mapped = true;
  exists = true;
  attached = g.attached + 1;
}

abbrev raised_to : ℤ → Semaphore → Semaphore
raised_to v s = record s { identifier = pos s.number; exists = true; value = v }

-- What each part of the set-up does.
abbrev pub configured : Main → Main
configured m = record m {
  config = made m.config;
  config_semaphore = raised_to (pos 1) m.config_semaphore;
  configured = some m.settings.cfg;
}

abbrev with_segments : Main → Main
with_segments m = record m { all_drones = made m.all_drones; stack = made m.stack }

abbrev pub with_drones : Shared → Main → Main
with_drones sh m = record (with_segments m) {
  all_drones_semaphore = raised_to (pos 1) m.all_drones_semaphore;
  launched = some sh;
}

abbrev pub with_gate_semaphore : Main → Main
with_gate_semaphore m = record m { gate_semaphore = raised_to (pos 2) m.gate_semaphore }

abbrev pub with_open_gate : Main → Main
with_open_gate m = record m {
  gate = record {
    fifo = record { path = gate_path; file_descriptor = pos m.descriptor; capacity = pos 2 };
    exists = true;
    is_open = true;
    tokens = 2;
  };
}

configures :
    (m : Main) (r : List Answer)
    → create_shm_config (heard m (replicate 7 done ++ r)) ≡ some (pos 0, heard (configured m) r)
unfolding create_shm_config create_segment create_semaphore shm_create shm_attach semaphore_create
    grab_key_from_file
configures m r = refl

lays_out :
    (m : Main) (sh : Shared) (r : List Answer)
    → create_shm_all_drones_data m.settings m.raw_drones m.raw_stack ≡ some sh
    → create_all_drones_data (heard m (replicate 12 done ++ r))
      ≡ some (pos 0, heard (with_drones sh m) r)
unfolding create_all_drones_data create_segment create_semaphore shm_create shm_attach
    semaphore_create grab_key_from_file
lays_out m sh r e =
    ap
      (λ o.
        follow (laid_out (heard (with_segments m) (done ∷ done ∷ r)) o)
          (λ m. create_semaphore put_all_drones_semaphore m.all_drones_semaphore (pos 1) m))
      e

raises_gate :
    (m : Main) (r : List Answer)
    → create_gate_semaphore (heard m (replicate 5 done ++ r))
      ≡ some (pos 0, heard (with_gate_semaphore m) r)
unfolding create_gate_semaphore create_semaphore semaphore_create grab_key_from_file
raises_gate m r = refl

opens_gate :
    (m : Main) (r : List Answer)
    → create_gate_fifo_sem (heard m (replicate 6 done ++ r))
      ≡ some (pos 0, heard (with_open_gate m) r)
unfolding create_gate_fifo_sem fifo_sem_create
opens_gate m r = refl

-- The rest of the set-up behind each part.
abbrev forks : Option (ℤ × Main) → Option (ℤ × Main)
forks o = follow (follow o creat_operator) creat_system_commander

abbrev opens : Option (ℤ × Main) → Option (ℤ × Main)
opens o = forks (follow o create_gate_fifo_sem)

abbrev raises : Option (ℤ × Main) → Option (ℤ × Main)
raises o = opens (follow o create_gate_semaphore)

abbrev pub with_children : Main → Main
with_children m = record m {
  operator_pid = pos m.children.0;
  system_commander_pid = pos m.children.1;
}

-- When all 32 calls succeed, and the two fresh segments can be laid out.
pub set_up-Succeeds :
    (m : Main) (sh : Shared) (r : List Answer)
    → create_shm_all_drones_data m.settings m.raw_drones m.raw_stack ≡ some sh
    → set_up (heard m (replicate 32 done ++ r))
      ≡ some (
        pos 0,
        heard
            (with_children (with_open_gate (with_gate_semaphore (with_drones sh (configured m)))))
            r,
      )
unfolding set_up creat_operator creat_system_commander
set_up-Succeeds m sh r e =
    let m1 : Main = configured m in
    let m2 : Main = with_drones sh m1 in
    let m3 : Main = with_gate_semaphore m2 in
    ap (λ o. raises (follow o create_all_drones_data)) (configures m (replicate 25 done ++ r))
    ∙ ap raises (lays_out m1 sh (replicate 13 done ++ r) e)
    ∙ ap opens (raises_gate m2 (replicate 8 done ++ r))
    ∙ ap forks (opens_gate m3 (done ∷ done ∷ r))
