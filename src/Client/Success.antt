-- ===== src/Client/Success.antt =====
-- The starts of a drone, the operator and the commander when no call fails.
use so_lab_project.Prelude.{
  ◌+◌, ◌-◌, arith, ℕ, ◌≡◌, refl, sym, subst, true, false, List, ◌++◌, some, pos, replicate,
}
use so_lab_project.Shm.{Location}
use so_lab_project.Ipc.{Answer, done, semaphore_lock, semaphore_unlock}
use so_lab_project.Ipc.Acts.{EndsIn}
use so_lab_project.Ipc.Gate.{fifo_sem_get}
use so_lab_project.Ipc.Objects.{shm_get, shm_attach, shm_detach, semaphore_get, grab_key_from_file}
use so_lab_project.Dron.Starting.{initial_internal_data}
use so_lab_project.Client.{Client, heard}
use so_lab_project.Client.Holding.{Held, Reached, IsNew}
use so_lab_project.Client.Starting.{start_ups-Held}
use so_lab_project.Client.Dron
use so_lab_project.Client.Operator
use so_lab_project.Client.Commander

attached_once : (n : ℕ) → n + 1 - 1 ≡ n
attached_once n = omega arith

pub operator_starts :
    (c : Client) (r : List Answer)
    → (c' : Client) × (Operator.start_up (heard c (replicate 25 done ++ r)) ≡ some (pos 0, c'))
      × (c'.configuration ≡ some c.stored)
      × (c'.answers ≡ r)
      × (c'.waits ≡ c.waits)
      × (c'.config.attached ≡ c.config.attached)
unfolding Operator.start_up Operator.get_configuration_from_shm_config
    Operator.get_shm_all_drones_data Operator.detach_config grab_key_from_file shm_get shm_attach
    shm_detach semaphore_get semaphore_lock semaphore_unlock
operator_starts c r = (_, refl, refl, refl, refl, attached_once c.config.attached)

commander_starts :
    (c : Client) (r : List Answer)
    → (c' : Client) × (Commander.start_up (heard c (replicate 13 done ++ r)) ≡ some (pos 0, c'))
unfolding Commander.start_up Commander.get_shm_all_drones_data grab_key_from_file shm_get shm_attach
    semaphore_get
commander_starts c r = (_, refl)

abbrev pub ComesUp : Location → List Answer → Client → Type 0
ComesUp l r c =
    (c' : Client) × (Dron.start_up l (heard c (replicate 32 done ++ r)) ≡ some (pos 0, c'))
    × (c'.internal ≡ some (initial_internal_data c.stored l))
    × (c'.answers ≡ r)
    × (c'.gate.fifo.file_descriptor ≡ pos c.descriptor)
    × (c'.config.attached ≡ c.config.attached)

drone_starts_at_fifo :
    (l : Location) (c : Client) (r : List Answer) → ComesUp l r (record c { is_fifo = true })
unfolding Dron.start_up Dron.get_shm_all_drones_data Dron.get_gate_semaphore Dron.get_gate_fifo_sem
    Dron.get_initial_configuration Dron.take_configuration Operator.detach_config shm_detach
    fifo_sem_get grab_key_from_file shm_get shm_attach semaphore_get semaphore_lock semaphore_unlock
drone_starts_at_fifo l c r = (_, refl, refl, refl, refl, attached_once c.config.attached)

pub drone_starts : (l : Location) (c : Client) (r : List Answer) → c.is_fifo ≡ true → ComesUp l r c
drone_starts l c r e =
    subst (λ b. ComesUp l r (record c { is_fifo = b })) (sym e) (drone_starts_at_fifo l c r)

-- When no call fails and the path of the gate is a FIFO, a drone, the operator and the commander start:
-- each holds both segments, the drone also an open gate and the data that the configuration gives it,
-- and the operator a copy of the configuration; both have detached the configuration again.
pub start_ups-Succeed :
    (l : Location) (c : Client) (r : List Answer)
    → IsNew c
    → c.is_fifo ≡ true
    → ((d : Client) × (Dron.start_up l (heard c (replicate 32 done ++ r)) ≡ some (pos 0, d))
        × (d.internal ≡ some (initial_internal_data c.stored l))
        × (d.config.attached ≡ c.config.attached)
        × Reached c true true true d)
      × ((o : Client) × (Operator.start_up (heard c (replicate 25 done ++ r)) ≡ some (pos 0, o))
          × (o.configuration ≡ some c.stored)
          × (o.config.attached ≡ c.config.attached)
          × Reached c true true false o)
      × ((s : Client) × (Commander.start_up (heard c (replicate 13 done ++ r)) ≡ some (pos 0, s))
          × Reached c true true false s)
start_ups-Succeed l c r new e =
    let (d, run_d, data_, on, open_, back_d) = drone_starts l c r e in
    let (o, run_o, config, on_o, waits_o, back_o) = operator_starts c r in
    let (s, run_s) = commander_starts c r in
    (
      (
        d,
        run_d,
        data_,
        back_d,
        subst (EndsIn (Held c) (Reached c true true true)) run_d
            (start_ups-Held l (heard c (replicate 32 done ++ r)) new).0,
      ),
      (
        o,
        run_o,
        config,
        back_o,
        subst (EndsIn (Held c) (Reached c true true false)) run_o
            (start_ups-Held l (heard c (replicate 25 done ++ r)) new).1,
      ),
      (
        s,
        run_s,
        subst (EndsIn (Held c) (Reached c true true false)) run_s
            (start_ups-Held l (heard c (replicate 13 done ++ r)) new).2,
      ),
    )
