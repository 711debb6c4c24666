-- ===== src/Tests/Clients.antt =====
-- A drone, the operator and the commander at their start and at their end.
use so_lab_project.Prelude.{
  ℕ, ◌≡◌, ◌≢◌, refl, inl, inr, true, false, List, [], ◌∷◌, ◌++◌, none, some, pos, replicate,
}
use so_lab_project.Shm.{mission}
use so_lab_project.Ipc.{Answer, done, failed, minus_one}
use so_lab_project.Ipc.Acts.{EndsIn}
use so_lab_project.Ipc.Objects.{Segment, Semaphore}
use so_lab_project.Setup.{defaults}
use so_lab_project.Client.{Client}
use so_lab_project.Client.Dron
use so_lab_project.Client.Operator
use so_lab_project.Client.Commander
use so_lab_project.Client.Holding.{Held, Reached, IsNew}
use so_lab_project.Client.Success.{start_ups-Succeed}
use so_lab_project.Dron.Starting.{initial_internal_data}
use so_lab_project.Client.Starting.{start_ups-Held}
use so_lab_project.Client.Leaving.{Left, SegmentLeft}
use so_lab_project.Client.Closing.{close_main-Left}
use so_lab_project.Client.Reaping.{close_main-Reaps}

-- A segment and a semaphore that the main process made.
abbrev segment : ℕ → Segment
segment n = record {
  number = n;
  identifier = minus_one;
  mapped = false;
  exists = true;
  attached = 0;
}

abbrev semaphore : ℕ → Semaphore
semaphore n = record { number = n; identifier = minus_one; exists = true; value = pos 1 }

abbrev pub new : List Answer → Client
new answers = record {
  answers = answers;
  waits = failed ∷ [];
  stored = defaults.cfg;
  configuration = none;
  internal = none;
  descriptor = 5;
  is_fifo = true;
  config = segment 1;
  config_semaphore = semaphore 4;
  all_drones = segment 2;
  stack = segment 3;
  all_drones_semaphore = semaphore 5;
  gate_semaphore = semaphore 6;
  gate = record {
    fifo = record { path = []; file_descriptor = minus_one; capacity = pos 0 };
    exists = true;
    is_open = false;
    tokens = 2;
  };
  battery_working = false;
}

pub new-IsNew : (answers : List Answer) → IsNew (new answers)
new-IsNew answers = (
  ((refl, refl, inr refl), (refl, refl, inr refl), (refl, refl), refl, refl, refl, refl),
  refl,
  refl,
  refl,
)

start_ups-Held_example :
    let c = new (replicate 40 done) in
    EndsIn (Held c) (Reached c true true true) (Dron.start_up mission c)
    × EndsIn (Held c) (Reached c true true false) (Operator.start_up c)
    × EndsIn (Held c) (Reached c true true false) (Commander.start_up c)
start_ups-Held_example =
    start_ups-Held mission (new (replicate 40 done)) (new-IsNew (replicate 40 done))

start_ups-Succeed_example :
    let c = new [] in
    ((d : Client) × (Dron.start_up mission (new (replicate 32 done)) ≡ some (pos 0, d))
      × (d.internal ≡ some (initial_internal_data defaults.cfg mission))
      × (d.config.attached ≡ c.config.attached)
      × Reached c true true true d)
    × ((o : Client) × (Operator.start_up (new (replicate 25 done)) ≡ some (pos 0, o))
        × (o.configuration ≡ some defaults.cfg)
        × (o.config.attached ≡ c.config.attached)
        × Reached c true true false o)
    × ((s : Client) × (Commander.start_up (new (replicate 13 done)) ≡ some (pos 0, s))
        × Reached c true true false s)
start_ups-Succeed_example = start_ups-Succeed mission (new []) [] (new-IsNew []) refl

-- Both segments are attached, and the gate is open.
abbrev ready : List Answer → Client
ready answers = record (new answers) {
  all_drones = record {
    number = 2;
    identifier = pos 2;
    mapped = true;
    exists = true;
    attached = 1;
  };
  stack = record { number = 3; identifier = pos 3; mapped = true; exists = true; attached = 1 };
  gate = record {
    fifo = record { path = 46 ∷ []; file_descriptor = pos 5; capacity = minus_one };
    exists = true;
    is_open = true;
    tokens = 2;
  };
  battery_working = true;
}

ready-Held : (answers : List Answer) → Held (new answers) (ready answers)
ready-Held answers =
    ((refl, refl, inl refl), (refl, refl, inl refl), (refl, refl), refl, refl, refl, refl)

pub not_zero : pos 5 ≢ pos 0
not_zero e = cc

close_main-Left_example :
    ((c' : Client) × (Dron.close_main (pos 0) (ready (replicate 4 done)) ≡ some (pos 0, c'))
      × Left (new (replicate 4 done)) c')
    × ((c' : Client) × (Commander.close_main (pos 0) (ready (replicate 4 done)) ≡ some (pos 0, c'))
        × SegmentLeft (segment 2) c'.all_drones
        × SegmentLeft (segment 3) c'.stack)
close_main-Left_example =
    close_main-Left (pos 0) (new (replicate 4 done)) (ready (replicate 4 done))
      (ready-Held (replicate 4 done)) not_zero tt

-- Three ends of children, as if SIGCHLD were not ignored, and the failure.
abbrev three_children : Client
three_children = record (ready (done ∷ done ∷ [])) { waits = replicate 3 done ++ failed ∷ [] }

close_main-Reaps_example :
    (c' : Client) × (Operator.close_main (pos 0) three_children ≡ some (pos 0, c'))
    × SegmentLeft (segment 2) c'.all_drones
    × SegmentLeft (segment 3) c'.stack
    × (c'.waits ≡ [])
close_main-Reaps_example =
    close_main-Reaps (pos 0) (new []) three_children 3 [] [] (ready-Held (done ∷ done ∷ [])) refl
      refl
