-- ===== src/Main/Launch/Stages.antt =====
-- The set-up of the main process, part by part.
use so_lab_project.Prelude.{zero, suc, ◌∙◌, inl, sym, List, Option, none, some, ℤ, pos, negsuc}
use so_lab_project.Ipc.{Answer}
use so_lab_project.Ipc.Gate.{Place, fifo_sem_create}
use so_lab_project.Ipc.Gate.Laws.{Creates, fifo_sem_create-Creates}
use so_lab_project.Dron.{Shared}
use so_lab_project.Setup.{create_shm_all_drones_data}
use so_lab_project.Main.Launch.{
  Main, need_key, any_key, put_config, put_all_drones, put_stack, put_config_semaphore,
  put_all_drones_semaphore, put_gate_semaphore, configure, create_shm_config, laid_out, lay_out,
  create_all_drones_data, create_gate_semaphore, gate_path, with_gate, create_gate_fifo_sem,
  creat_operator, creat_system_commander, set_up,
}
use so_lab_project.Main.Launch.Sound.{
  SegmentReady, SegmentFresh, SemaphoreReady, SemaphoreFresh, GateFresh, Parts, Sound, IsUntouched,
  IsComplete, Ends, fresh-SegmentSound, fresh-SemaphoreSound, ready-SemaphoreSound, fresh-GateSound,
  create_segment-Ends, create_semaphore-Ends, need_key-Ends, any_key-Ends, fork-Ends,
}
use so_lab_project.Main.Launch.Leading.{
  Configured, LaidOut, Gated, untouched-Sound, configured-Sound, laid_out-Sound, gated-Sound, Leads,
  chain, complete-Sound,
}

abbrev WithConfig : Main → Type 0
WithConfig =
    Parts SegmentReady SegmentFresh SegmentFresh SemaphoreFresh SemaphoreFresh SemaphoreFresh
      GateFresh

create_shm_config-Leads : Leads IsUntouched Configured create_shm_config
unfolding create_shm_config
create_shm_config-Leads =
    chain IsUntouched WithConfig Configured _ _
      (chain IsUntouched WithConfig WithConfig _ configure
        (chain IsUntouched IsUntouched WithConfig need_key _
          (λ m u. need_key-Ends IsUntouched m (λ r. u) (λ r. untouched-Sound m u))
          (λ m u.
            let (a, b, c, d, e, f, p) = u in
            let (a', b', c', d', e', f', p') = untouched-Sound m u in
            create_segment-Ends WithConfig put_config m.config m a
              (λ g r g'. (g', b, c, d, e, f, p)) (λ g r g'. (g', b', c', d', e', f', p'))))
        (λ m u. u))
      (λ m u.
        let (a, b, c, d, e, f, p) = u in
        create_semaphore-Ends Configured put_config_semaphore m.config_semaphore (pos 1) m
          (λ s r s'. (a, b, c, s', e, f, p))
          (λ s r s'. (
            a.0,
            fresh-SegmentSound m.all_drones b,
            fresh-SegmentSound m.stack c,
            s',
            fresh-SemaphoreSound m.all_drones_semaphore e,
            fresh-SemaphoreSound m.gate_semaphore f,
            fresh-GateSound m.gate p,
          )))

-- With the segment of the drones, and with both.
abbrev WithDrones : Main → Type 0
WithDrones =
    Parts SegmentReady SegmentReady SegmentFresh SemaphoreReady SemaphoreFresh SemaphoreFresh
      GateFresh

abbrev WithStack : Main → Type 0
WithStack =
    Parts SegmentReady SegmentReady SegmentReady SemaphoreReady SemaphoreFresh SemaphoreFresh
      GateFresh

with_stack-Sound : (m : Main) → WithStack m → Sound m
with_stack-Sound m (a, b, c, d, e, f, p) = (
  a.0,
  b.0,
  c.0,
  ready-SemaphoreSound m.config_semaphore d,
  fresh-SemaphoreSound m.all_drones_semaphore e,
  fresh-SemaphoreSound m.gate_semaphore f,
  fresh-GateSound m.gate p,
)

laid_out-Ends : (m : Main) (o : Option Shared) → WithStack m → Ends WithStack (laid_out m o)
laid_out-Ends m none u = with_stack-Sound m u
laid_out-Ends m (some sh) u = u

create_all_drones_data-Leads : Leads Configured LaidOut create_all_drones_data
unfolding create_all_drones_data
create_all_drones_data-Leads =
    chain Configured WithStack LaidOut _ _
      (chain Configured WithStack WithStack _ lay_out
        (chain Configured WithDrones WithStack _ _
          (chain Configured WithDrones WithDrones _ any_key
            (chain Configured Configured WithDrones need_key _
              (λ m u. need_key-Ends Configured m (λ r. u) (λ r. configured-Sound m u))
              (λ m u.
                let (a, b, c, d, e, f, p) = u in
                let (a', b', c', d', e', f', p') = configured-Sound m u in
                create_segment-Ends WithDrones put_all_drones m.all_drones m b
                  (λ g r g'. (a, g', c, d, e, f, p)) (λ g r g'. (a', g', c', d', e', f', p'))))
            (λ m u. any_key-Ends WithDrones m (λ r. u)))
          (λ m u.
            let (a, b, c, d, e, f, p) = u in
            create_segment-Ends WithStack put_stack m.stack m c (λ g r g'. (a, b, g', d, e, f, p))
              (λ g r g'. (
                a.0,
                b.0,
                g',
                ready-SemaphoreSound m.config_semaphore d,
                fresh-SemaphoreSound m.all_drones_semaphore e,
                fresh-SemaphoreSound m.gate_semaphore f,
                fresh-GateSound m.gate p,
              ))))
        (λ m u. laid_out-Ends m (create_shm_all_drones_data m.settings m.raw_drones m.raw_stack) u))
      (λ m u.
        let (a, b, c, d, e, f, p) = u in
        let (a', b', c', d', e', f', p') = with_stack-Sound m u in
        create_semaphore-Ends LaidOut put_all_drones_semaphore m.all_drones_semaphore (pos 1) m
          (λ s r s'. (a, b, c, d, s', f, p)) (λ s r s'. (a', b', c', d', s', f', p')))

create_gate_semaphore-Leads : Leads LaidOut Gated create_gate_semaphore
unfolding create_gate_semaphore
create_gate_semaphore-Leads =
    chain LaidOut LaidOut Gated need_key _
      (λ m u. need_key-Ends LaidOut m (λ r. u) (λ r. laid_out-Sound m u))
      (λ m u.
        let (a, b, c, d, e, f, p) = u in
        let (a', b', c', d', e', f', p') = laid_out-Sound m u in
        create_semaphore-Ends Gated put_gate_semaphore m.gate_semaphore (pos 2) m
          (λ s r s'. (a, b, c, d, e, s', p)) (λ s r s'. (a', b', c', d', e', s', p')))

with_gate-Ends :
    (m : Main) (o : Option (ℤ × Place × List Answer))
    → Gated m
    → Creates gate_path (pos 2) m.descriptor o
    → Ends IsComplete (with_gate m o)
with_gate-Ends m none u h = tt
with_gate-Ends m (some (pos zero, p, r)) (a, b, c, d, e, f, g) (there, open_, tokens, fifo) =
    (a, b, c, d, e, f, (open_, there, fifo))
with_gate-Ends m (some (pos (suc z), p, r)) u h = absurd h
with_gate-Ends m (some (negsuc z, p, r)) u (shut, out) =
    let (a, b, c, d, e, f, g) = gated-Sound m u in (a, b, c, d, e, f, (out ∙ sym shut, inl shut))

create_gate_fifo_sem-Leads : Leads Gated IsComplete create_gate_fifo_sem
unfolding create_gate_fifo_sem
create_gate_fifo_sem-Leads m u =
    with_gate-Ends m (fifo_sem_create (some gate_path) (pos 2) m.descriptor m.gate m.answers) u
      (fifo_sem_create-Creates gate_path (pos 2) m.descriptor m.gate m.answers u.6.0 u.6.1)

fork_operator-Leads : Leads IsComplete IsComplete creat_operator
unfolding creat_operator
fork_operator-Leads m u =
    fork-Ends IsComplete m (λ r. record m { answers = r; operator_pid = pos m.children.0 }) (λ r. u)
      (λ r. complete-Sound m u)

fork_commander-Leads : Leads IsComplete IsComplete creat_system_commander
unfolding creat_system_commander
fork_commander-Leads m u =
    fork-Ends IsComplete m (λ r. record m { answers = r; system_commander_pid = pos m.children.1 })
      (λ r. u) (λ r. complete-Sound m u)

-- However the system answers, the set-up of the main process waits, or ends with everything created
-- and known to its variables, or fails somewhere; and where it fails, the ids, pointers and the
-- descriptor in its variables are still those of what exists: a segment exists exactly when its id
-- is set, it is attached exactly when its pointer is set, and only one that exists has a pointer; a
-- semaphore whose id is set exists, and the descriptor of the gate is set exactly when it is open,
-- and then the path too.
pub set_up-Ends : (m : Main) → IsUntouched m → Ends IsComplete (set_up m)
unfolding set_up
set_up-Ends =
    chain IsUntouched IsComplete IsComplete _ creat_system_commander
      (chain IsUntouched IsComplete IsComplete _ creat_operator
        (chain IsUntouched Gated IsComplete _ create_gate_fifo_sem
          (chain IsUntouched LaidOut Gated _ create_gate_semaphore
            (chain IsUntouched Configured LaidOut create_shm_config create_all_drones_data
              create_shm_config-Leads create_all_drones_data-Leads)
            create_gate_semaphore-Leads)
          create_gate_fifo_sem-Leads)
        fork_operator-Leads)
      fork_commander-Leads
