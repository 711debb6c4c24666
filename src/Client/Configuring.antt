-- ===== src/Client/Configuring.antt =====
-- How the operator and a drone copy the configuration, whatever the system answers.
use so_lab_project.Prelude.{false, List, Option, none, some, ℤ, pos, negsuc}
use so_lab_project.Ipc.{Answer, semaphore_lock, semaphore_unlock}
use so_lab_project.Ipc.Acts.{◌>>=◌, EndsIn}
use so_lab_project.Ipc.Attempts.{attempt_rule}
use so_lab_project.Ipc.Objects.{shm_get, shm_attach, shm_detach}
use so_lab_project.Client.{
  Client, Act, heard, need_key, got, attached_to, put_config, put_config_semaphore,
}
use so_lab_project.Client.Holding.{Held, Reached, Leads, chain, need_key-Leads, found-Leads}
use so_lab_project.Shm.{Location}
use so_lab_project.Client.Operator
use so_lab_project.Client.Dron

module _ (first : Client) where
  -- Once more behind a signal, a key and the like.
  pub again :
      (P R : Client → Type 0) (a b : Act)
      → Leads first P R a
      → Leads first R R b
      → Leads first P R (a >>= b)
  again P R a b = chain first P R R a b

  -- The configuration under its semaphore.
  guarded-Leads :
      (c : Client) (o : Option (ℤ × List Answer))
      → Reached first false false false c
      → EndsIn (Held first) (Reached first false false false) (Operator.guarded c o)
  unfolding Operator.detach_config shm_detach
  guarded-Leads c none h = tt
  guarded-Leads c (some (pos k, r)) h = h
  guarded-Leads c (some (negsuc k, r)) h =
      attempt_rule
        (λ o.
          EndsIn (Held first) (Reached first false false false)
            (Operator.fail (Operator.detached (heard c r) o)))
        r _ _ tt (λ r. h.0) (λ r. h.0)

  get_config-Leads :
      Leads first
        (Reached first false false false)
        (Reached first false false false)
        Operator.get_config
  unfolding shm_get
  get_config-Leads c h =
      attempt_rule (λ o. EndsIn (Held first) (Reached first false false false) (got put_config c o))
        c.answers _ _ tt (λ r. h) (λ r. h.0)

  attach_config-Leads :
      Leads first
        (Reached first false false false)
        (Reached first false false false)
        Operator.attach_config
  unfolding shm_attach
  attach_config-Leads c h =
      attempt_rule
        (λ o. EndsIn (Held first) (Reached first false false false) (attached_to put_config c o))
        c.answers _ _ tt (λ r. h) (λ r. h.0)

  detach_config-Leads :
      Leads first
        (Reached first false false false)
        (Reached first false false false)
        Operator.detach_config
  unfolding Operator.detach_config shm_detach
  detach_config-Leads c h =
      attempt_rule
        (λ o. EndsIn (Held first) (Reached first false false false) (Operator.detached c o))
        c.answers _ _ tt (λ r. h) (λ r. h.0)

  locked-Leads : Leads first (Reached first false false false) (Reached first false false false) (
      need_key >>= Operator.get_config >>= Operator.get_config_semaphore >>= Operator.attach_config
      >>= Operator.lock_config)
  locked-Leads =
      let new = Reached first false false false in
      again new new _ _
        (again new new _ _
          (again new new _ _
            (again new new need_key _ (need_key-Leads first false false false) get_config-Leads)
            (found-Leads first false false false put_config_semaphore (λ c. c.config_semaphore)
              (λ c i r h. h)))
          attach_config-Leads)
        (λ c h. guarded-Leads c (semaphore_lock c.answers) h)

  unlock_config-Leads :
      Leads first
        (Reached first false false false)
        (Reached first false false false)
        Operator.unlock_config
  unlock_config-Leads c h = guarded-Leads c (semaphore_unlock c.answers) h

  pub get_configuration-Leads :
      Leads first
        (Reached first false false false)
        (Reached first false false false)
        Operator.get_configuration_from_shm_config
  unfolding Operator.get_configuration_from_shm_config
  get_configuration-Leads =
      let new = Reached first false false false in
      again new new _ _
        (again new new _ _ (again new new _ Operator.copy_config locked-Leads (λ c h. h))
          unlock_config-Leads)
        detach_config-Leads

  pub get_initial_configuration-Leads :
      (l : Location)
      → Leads first
          (Reached first false false false)
          (Reached first false false false)
          (Dron.get_initial_configuration l)
  unfolding Dron.get_initial_configuration Dron.take_configuration
  get_initial_configuration-Leads l =
      let new = Reached first false false false in
      again new new _ (Dron.take_configuration l)
        (again new new _ _ (again new new _ _ locked-Leads unlock_config-Leads) detach_config-Leads)
        (λ c h. h)
