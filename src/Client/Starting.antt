-- ===== src/Client/Starting.antt =====
-- How a drone, the operator and the commander start, whatever the system answers.
use so_lab_project.Prelude.{
  zero, suc, ◌∙◌, sym, ap, true, false, List, Option, none, some, ℤ, pos, negsuc, leb_ℤ,
}
use so_lab_project.Shm.{Location}
use so_lab_project.Ipc.{Answer, FifoSem}
use so_lab_project.Ipc.Acts.{◌>>=◌, EndsIn}
use so_lab_project.Ipc.Gate.{Place, fifo_sem_get}
use so_lab_project.Ipc.Gate.Laws.{Gets, fifo_sem_get-Gets}
use so_lab_project.Main.Launch.{gate_path}
use so_lab_project.Client.{
  Client, Act, call, need_key, any_key, put_all_drones_semaphore, put_gate_semaphore,
  get_all_drones, attach_all_drones, get_stack, attach_stack, get_all_drones_semaphore,
}
use so_lab_project.Client.Holding.{
  Held, Reached, IsNew, Leads, chain, WithId, not_negative, call-Leads, need_key-Leads,
  any_key-Leads, found-Leads, get_all_drones-Leads, attach_all_drones-Leads, get_stack-Leads,
  attach_stack-Leads,
}
use so_lab_project.Client.Configuring.{
  again, get_configuration-Leads, get_initial_configuration-Leads,
}
use so_lab_project.Client.Dron
use so_lab_project.Client.Operator
use so_lab_project.Client.Commander

module _ (first : Client) where
  all_drones-Leads :
      (key : Act)
      → Leads first (Reached first true false false) (Reached first true false false) key
      → Leads first (Reached first false false false) (Reached first true true false) (
          need_key >>= get_all_drones >>= attach_all_drones >>= key >>= get_stack >>= attach_stack
          >>= get_all_drones_semaphore)
  all_drones-Leads key h =
      let to = Reached first true true false in
      let on = Reached first true false false in
      let from_ = Reached first false false false in
      chain first from_ to to _ get_all_drones_semaphore
        (chain first from_ (WithId first (λ c. c.stack) true false false) to _ attach_stack
          (chain first from_ on (WithId first (λ c. c.stack) true false false) _ get_stack
            (chain first from_ on on _ key
              (chain first from_ (WithId first (λ c. c.all_drones) false false false) on _
                attach_all_drones
                (chain first from_ from_ (WithId first (λ c. c.all_drones) false false false)
                  need_key get_all_drones (need_key-Leads first false false false)
                  (get_all_drones-Leads first false))
                (attach_all_drones-Leads first false))
              h)
            (get_stack-Leads first false))
          (attach_stack-Leads first false))
        (found-Leads first true true false put_all_drones_semaphore (λ c. c.all_drones_semaphore)
          (λ c i r h. h))

  signal-Leads :
      Leads first (Reached first false false false) (Reached first false false false) call
  signal-Leads = call-Leads first false false false

  commander-Leads :
      Leads first
        (Reached first false false false)
        (Reached first true true false)
        Commander.start_up
  unfolding Commander.start_up Commander.get_shm_all_drones_data
  commander-Leads =
      let new = Reached first false false false in
      chain first new new _ _ _ (again first new new _ _ signal-Leads signal-Leads)
        (all_drones-Leads any_key (any_key-Leads first true false false))

  operator-Leads :
      Leads first
        (Reached first false false false)
        (Reached first true true false)
        Operator.start_up
  unfolding Operator.start_up Operator.get_shm_all_drones_data
  operator-Leads =
      let new = Reached first false false false in
      chain first new new _ _ _
        (again first new new _ _
          (again first new new _ _
            (again first new new _ _
              (again first new new _ _ (again first new new _ _ signal-Leads signal-Leads)
                signal-Leads)
              signal-Leads)
            signal-Leads)
          (get_configuration-Leads first))
        (all_drones-Leads need_key (need_key-Leads first true false false))

  -- The drone's gate.
  with_gate-Leads :
      (c : Client) (o : Option (ℤ × Place × List Answer))
      → Reached first true true false c
      → Gets gate_path c.descriptor c.gate o
      → EndsIn (Held first) (Reached first true true true) (Dron.with_gate c o)
  with_gate-Leads c none h e = tt
  with_gate-Leads c (some (pos zero, p, r)) ((a, b, (x, y), u, v, w, z), m, n, o)
        (there, fifo, same, tokens) =
      (
        (
          a,
          b,
          (
            same ∙ x,
            ap (λ (q : FifoSem). leb_ℤ (pos 0) q.file_descriptor) fifo
                ∙ not_negative c.descriptor
                ∙ sym there,
          ),
          u,
          v,
          w,
          z,
        ),
        m,
        n,
        there,
      )
  with_gate-Leads c (some (pos (suc k), p, r)) h e = absurd e
  with_gate-Leads c (some (negsuc k, p, r)) ((a, b, (x, y), u, v, w, z), m, n, o)
        (shut, out, same, tokens) =
      (a, b, (same ∙ x, out ∙ sym shut), u, v, w, z)

  dron-Leads :
      (l : Location)
      → Leads first
          (Reached first false false false)
          (Reached first true true true)
          (Dron.start_up l)
  unfolding Dron.start_up Dron.get_shm_all_drones_data Dron.get_gate_semaphore
      Dron.get_gate_fifo_sem
  dron-Leads l =
      let new = Reached first false false false in
      let here = Reached first true true false in
      let ready = Reached first true true true in
      again first new ready _ call
        (chain first new here ready _ _
          (again first new here _ _
            (chain first new new here _ _
              (again first new new _ _
                (again first new new _ _ (again first new new _ _ signal-Leads signal-Leads)
                  signal-Leads)
                (get_initial_configuration-Leads first l))
              (all_drones-Leads need_key (need_key-Leads first true false false)))
            (again first here here need_key _ (need_key-Leads first true true false) (
              found-Leads first true true false put_gate_semaphore (λ c. c.gate_semaphore)
                (λ c i r h. h))))
          (λ c h.
            with_gate-Leads c
              (fifo_sem_get (some gate_path) c.is_fifo c.descriptor c.gate c.answers) h
              (fifo_sem_get-Gets gate_path c.is_fifo c.descriptor c.gate c.answers h.3)))
        (call-Leads first true true true)

-- However the system answers, a drone, the operator and the commander that start either wait, or hold
-- the two segments, and the drone also the gate, or fail somewhere on the way; and in every case a
-- segment is attached once or not at all, as its pointer says, a segment with a pointer has its id,
-- the descriptor of the gate is set exactly when it is open, and none of the shared objects came into
-- being or went away.
pub start_ups-Held :
    (l : Location) (c : Client)
    → IsNew c
    → EndsIn (Held c) (Reached c true true true) (Dron.start_up l c)
      × EndsIn (Held c) (Reached c true true false) (Operator.start_up c)
      × EndsIn (Held c) (Reached c true true false) (Commander.start_up c)
start_ups-Held l c h = (dron-Leads c l c h, operator-Leads c c h, commander-Leads c c h)
