-- ===== src/Main/Closing/Success.antt =====
-- The whole run of the main process when no call fails (src/main.c).
use so_lab_project.Prelude.{
  ℕ, refl, ◌≡◌, ◌≢◌, sym, ap, ◌∙◌, subst, false, some, pos, replicate, pos_part, Bool, not, leb_ℤ,
}
use so_lab_project.Ipc.{done}
use so_lab_project.Ipc.Objects.{Segment}
use so_lab_project.Setup.Filling.{create_shm_all_drones_data-IsConsistent}
use so_lab_project.System.Safety.{IsFresh}
use so_lab_project.Main.Launch.{Main, heard, set_up}
use so_lab_project.Main.Launch.Sound.{IsUntouched, not_negative, IsComplete, Ends}
use so_lab_project.Main.Launch.Success.{
  configured, with_drones, with_gate_semaphore, with_open_gate, with_children, set_up-Succeeds,
}
use so_lab_project.Main.Launch.Stages.{set_up-Ends}
use so_lab_project.Setup.{create_shm_all_drones_data}
use so_lab_project.Main.Closing.{main}
use so_lab_project.Main.Closing.Leftover.{main-Cleaned}

-- Nothing of a segment or a semaphore is left.
abbrev pub SegmentGone : Segment → Type 0
SegmentGone g = (g.exists ≡ false) × (g.attached ≡ 0) × (g.mapped ≡ false)

abbrev pub IsGone : Main → Type 0
IsGone m =
    SegmentGone m.config
    × SegmentGone m.all_drones
    × SegmentGone m.stack
    × (m.config_semaphore.exists ≡ false)
    × (m.all_drones_semaphore.exists ≡ false)
    × (m.gate_semaphore.exists ≡ false)
    × (m.gate.exists ≡ false)
    × (m.gate.is_open ≡ false)

dropped : {b : Bool} (n : ℕ) → b ≡ not (leb_ℤ (pos 0) (pos n)) → b ≡ false
dropped n e = e ∙ ap not (not_negative n)

-- What the set-up of `m` leaves in `m1`: every object is there and known to its variables, the
-- segments hold the configuration and the fresh data, their semaphores have the value 1, the gate two
-- tokens, and the operator and the commander run.
abbrev pub Launched : Main → Main → Type 0
Launched m m1 =
    IsComplete m1
    × (m1.configured ≡ some m.settings.cfg)
    × (m1.launched ≡ create_shm_all_drones_data m.settings m.raw_drones m.raw_stack)
    × (m1.config_semaphore.value ≡ pos 1)
    × (m1.all_drones_semaphore.value ≡ pos 1)
    × (m1.gate.tokens ≡ 2)
    × (m1.operator_pid ≡ pos (m.children.0))
    × (m1.system_commander_pid ≡ pos (m.children.1))

-- On zeroed segments of the right size, with a descriptor for the gate that is not 0, and when none
-- of its 45 calls fails, the set-up of the main process returns 0 with every object created, the
-- configuration and the fresh drone data in their segments, the semaphores of both at 1, two tokens
-- in the gate, and the operator and the commander started; then the main process exits with 0 and
-- leaves no segment, no semaphore, no FIFO and no open descriptor behind.
pub main-Succeeds :
    (m : Main)
    → IsUntouched m
    → IsFresh m.settings m.raw_drones m.raw_stack
    → m.descriptor ≢ 0
    → m.answers ≡ replicate 45 done
    → (m1 : Main) × (m' : Main) × (set_up m ≡ some (pos 0, m1))
      × Launched m m1
      × (main m ≡ some (pos 0, m'))
      × IsGone m'
main-Succeeds m u f n h =
    let (sh, e, c, cap, size, count, res, max, drones) =
      create_shm_all_drones_data-IsConsistent m.settings m.raw_drones m.raw_stack f.some_memory
        f.bounded f.drones_room f.stack_room f.zeroed in
    let m1 : Main =
      heard (with_children (with_open_gate (with_gate_semaphore (with_drones sh (configured m)))))
        (replicate 13 done) in
    let run = set_up-Succeeds m sh (replicate 13 done) e in
    let complete = subst (Ends IsComplete) run (set_up-Ends (heard m (replicate 45 done)) u) in
    let (m', ends, ((a0, a1, a2), (b0, b1, b2), (c0, c1, c2), (d, d'), (x, x'), (y, y'), (o, z))) =
      main-Cleaned (heard m (replicate 45 done)) m1 (pos 0) u run (λ z. n (ap pos_part z)) tt in
    (
      m1,
      m',
      subst (λ l. set_up (heard m l) ≡ some (pos 0, m1)) (sym h) run,
      (complete, refl, sym e, refl, refl, refl, refl, refl),
      subst (λ l. main (heard m l) ≡ some (pos 0, m')) (sym h) ends,
      (
        (a2, a0, a1),
        (b2, b0, b1),
        (c2, c0, c1),
        dropped m.config_semaphore.number d',
        dropped m.all_drones_semaphore.number x',
        dropped m.gate_semaphore.number y',
        z,
        o,
      ),
    )
