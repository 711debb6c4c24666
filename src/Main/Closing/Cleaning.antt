-- ===== src/Main/Closing/Cleaning.antt =====
-- The parts of `close_main` in their order when no call fails (src/main.c).
use so_lab_project.Prelude.{ℕ, suc, ◌≡◌, refl, ap, List, some, ℤ}
use so_lab_project.Ipc.{Answer, minus_one}
use so_lab_project.Ipc.Acts.{◌>=>◌}
use so_lab_project.Ipc.Attempts.{Succeed}
use so_lab_project.Ipc.Attempts.Chains.{Requires, seq}
use so_lab_project.Ipc.Objects.{Segment, Semaphore}
use so_lab_project.Main.Launch.{
  Main, heard, put_config, put_all_drones, put_stack, put_config_semaphore,
  put_all_drones_semaphore, put_gate_semaphore,
}
use so_lab_project.Main.Launch.Sound.{GateSound}
use so_lab_project.Main.Closing.{
  join, close_segment, close_semaphore, Ending, written, joined, clean_up, put_gate, no_commander,
  no_operator, end_gate,
}
use so_lab_project.Main.Closing.Objects.{
  closed_segment, close_segment_rule, closed_semaphore, close_semaphore_rule, join_rule,
  closed_gate, close_gate_rule,
}

abbrev pub Takes : ℕ → ℕ → Ending → (Main → Main) → Type 0
Takes = Requires (λ m. m.answers) heard (λ m. GateSound m.gate)

module _ (q : ℕ) where
  end_segment-Takes :
      (put : Segment → Main → Main) (get : Main → Segment)
      → ((g : Segment) (m : Main) (r : List Answer) → put g (heard m r) ≡ heard (put g m) r)
      → Takes
          (suc (suc q))
          q
          (λ m. written put m (close_segment (get m) m.answers))
          (λ m. put (closed_segment (get m)) m)
  end_segment-Takes put get late = record {
    run = λ m u h.
        close_segment_rule
          (λ o.
            (r : List Answer) × (written put m o ≡ some (heard (put (closed_segment (get m)) m) r))
            × Succeed q r)
          q (get m) m.answers h (λ r h. (r, ap some (late (closed_segment (get m)) m r), h));
  }

  end_semaphore-Takes :
      (put : Semaphore → Main → Main) (get : Main → Semaphore)
      → ((s : Semaphore) (m : Main) (r : List Answer) → put s (heard m r) ≡ heard (put s m) r)
      → Takes
          (suc q)
          q
          (λ m. written put m (close_semaphore (get m) m.answers))
          (λ m. put (closed_semaphore (get m)) m)
  end_semaphore-Takes put get late = record {
    run = λ m u h.
        close_semaphore_rule
          (λ o.
            (r : List Answer) × (written put m o
              ≡ some (heard (put (closed_semaphore (get m)) m) r))
            × Succeed q r)
          q (get m) m.answers h (λ r h. (r, ap some (late (closed_semaphore (get m)) m r), h));
  }

  end_gate-Takes : Takes (suc (suc q)) q end_gate (λ m. put_gate (closed_gate m.gate) m)
  end_gate-Takes = record {
    run = λ m u h.
        close_gate_rule
          (λ o.
            (r : List Answer) × (written put_gate m o
              ≡ some (heard (put_gate (closed_gate m.gate) m) r))
            × Succeed q r)
          q m.gate m.answers u h (λ r h. (r, refl, h));
  }

  end_join-Takes :
      (f : Main → Main) (pid : Main → ℤ)
      → Takes (suc q) q (λ m. joined (λ r. heard (f m) r) (join (pid m) m.answers)) f
  end_join-Takes f pid = record {
    run = λ m u h.
        join_rule
          (λ o.
            (r : List Answer) × (joined (λ r. heard (f m) r) o ≡ some (heard (f m) r))
            × Succeed q r)
          q (pid m) m.answers h (λ r h. (r, refl, h));
  }

-- What `close_main` leaves when no call fails.
abbrev pub cleaned : Main → Main
cleaned m = record m {
  system_commander_pid = minus_one;
  operator_pid = minus_one;
  config = closed_segment m.config;
  all_drones = closed_segment m.all_drones;
  stack = closed_segment m.stack;
  config_semaphore = closed_semaphore m.config_semaphore;
  all_drones_semaphore = closed_semaphore m.all_drones_semaphore;
  gate_semaphore = closed_semaphore m.gate_semaphore;
  gate = closed_gate m.gate;
}

join_parts :
    (p q n : ℕ) (a b : Ending) (f g : Main → Main)
    → ((m : Main) (r : List Answer) → GateSound m.gate → GateSound (heard (f m) r).gate)
    → ((m : Main) (r s : List Answer) → heard (g (heard m r)) s ≡ heard (g m) s)
    → Takes p q a f
    → Takes q n b g
    → Takes p n (a >=> b) (λ m. g (f m))
join_parts = seq (λ m. m.answers) heard (λ m. GateSound m.gate) (λ m r. refl)

pub clean_up-Takes : Takes 13 0 clean_up cleaned
unfolding clean_up
clean_up-Takes =
    join_parts 13 12 0 _ _ no_commander _ (λ m r u. u) (λ m r s. refl)
      (end_join-Takes 12 no_commander (λ m. m.system_commander_pid))
      (join_parts 12 11 0 _ _ no_operator _ (λ m r u. u) (λ m r s. refl)
        (end_join-Takes 11 no_operator (λ m. m.operator_pid))
        (join_parts 11 9 0 _ _ _ _ (λ m r u. u) (λ m r s. refl)
          (end_segment-Takes 9 put_config (λ m. m.config) (λ g m r. refl))
          (join_parts 9 7 0 _ _ _ _ (λ m r u. u) (λ m r s. refl)
            (end_segment-Takes 7 put_all_drones (λ m. m.all_drones) (λ g m r. refl))
            (join_parts 7 5 0 _ _ _ _ (λ m r u. u) (λ m r s. refl)
              (end_segment-Takes 5 put_stack (λ m. m.stack) (λ g m r. refl))
              (join_parts 5 4 0 _ _ _ _ (λ m r u. u) (λ m r s. refl)
                (end_semaphore-Takes 4 put_config_semaphore (λ m. m.config_semaphore)
                  (λ g m r. refl))
                (join_parts 4 3 0 _ _ _ _ (λ m r u. u) (λ m r s. refl)
                  (end_semaphore-Takes 3 put_all_drones_semaphore (λ m. m.all_drones_semaphore)
                    (λ g m r. refl))
                  (join_parts 3 2 0 _ _ _ _ (λ m r u. u) (λ m r s. refl)
                    (end_semaphore-Takes 2 put_gate_semaphore (λ m. m.gate_semaphore)
                      (λ g m r. refl))
                    (end_gate-Takes 0))))))))
