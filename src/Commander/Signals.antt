-- ===== src/Commander/Signals.antt =====
-- How many signals the mission plan of src/system_commander/system_commander.c sends.
use native.Mathlib.Nat.{suc-mul}
use so_lab_project.Prelude.{
  either_way, ℕ, zero, suc, ◌+◌, ◌*◌, ◌≤◌, ◌≡◌, refl, Bool, true, false, List, [], ◌∷◌, Option,
  none, some, ℤ, pos, negsuc, arith, total, leb_ℤ,
}
use so_lab_project.Shm.{AllDronesData, get_dron_pid}
use so_lab_project.Ipc.{
  Answer, done, interrupted, timed_out, failed, minus_one, semaphore_lock, semaphore_unlock,
}
use so_lab_project.Commander.{
  Sent, add_drones, subtract_drones, suicide_request, Commander, Act, return, follow, ◌>>=◌,
  or_fail, system, look, read_locked, find, shutdown_requested, deliver, send, wait_on,
  mission_wait_seconds_interruptible, unless_requested, after_wait, pick_dron_pid_from_shm,
  repeat_step, mission_step_increase_drones, mission_step_kill_drones, kill_picked, decrease_from,
  mission_step_decrease_drones_to_0, run_mission_plan,
}

-- A call adds at most `n` to the weight of what was sent.
abbrev pub Within : (Sent → ℕ) → ℕ → ℕ → Option (ℤ × Commander) → Type 0
Within w start n none = Unit {0}
Within w start n (some (r, c)) = total w c.sent ≤ start + n

module _ (w : Sent → ℕ) where
  abbrev Adds : ℕ → Act → Type 0
  Adds n m = (c : Commander) → Within w (total w c.sent) n (m c)

  shift :
      (s n t m : ℕ) (r : Option (ℤ × Commander)) → s + n ≤ t + m → Within w s n r → Within w t m r
  shift s n t m none h k = tt
  shift s n t m (some (r, c)) h k = omega (arith, k)

  weaken : (n m : ℕ) (a : Act) → n ≤ m → Adds n a → Adds m a
  weaken n m a h k c = shift (total w c.sent) n (total w c.sent) m (a c) (omega arith) (k c)

  follow-Within :
      (s n m : ℕ) (r : Option (ℤ × Commander)) (k : ℤ → Act)
      → Within w s n r
      → ((x : ℤ) → Adds m (k x))
      → Within w s (n + m) (follow r k)
  follow-Within s n m none k h f = tt
  follow-Within s n m (some (x, c)) k h f =
      shift (total w c.sent) m s (n + m) (k x c) (omega (arith, h)) (f x c)

  chain :
      (n m : ℕ) (a : Act) (k : ℤ → Act)
      → Adds n a
      → ((x : ℤ) → Adds m (k x))
      → Adds (n + m) (a >>= k)
  chain n m a k h f c = follow-Within (total w c.sent) n m (a c) k (h c) f

  -- Behind a call that sends nothing.
  chain_free :
      (m : ℕ) (a : Act) (k : ℤ → Act) → Adds 0 a → ((x : ℤ) → Adds m (k x)) → Adds m (a >>= k)
  chain_free m a k h f c =
      shift (total w c.sent) (0 + m) (total w c.sent) m ((a >>= k) c) (omega arith)
        (chain 0 m a k h f c)

  return-Adds : (x : ℤ) (n : ℕ) → Adds n (return x)
  return-Adds x n c = omega arith

  or_fail-Adds : (n : ℕ) (x : ℤ) (k : Act) → Adds n k → Adds n (or_fail x k)
  or_fail-Adds n (pos z) k h = h
  or_fail-Adds n (negsuc z) k h = return-Adds minus_one n

  system-Adds : (o : Option (ℤ × List Answer)) → Adds 0 (system o)
  system-Adds none c = tt
  system-Adds (some (r, rest)) c = omega arith

  look-Adds : (vs : List AllDronesData) (f : AllDronesData → ℤ) → Adds 0 (look vs f)
  look-Adds [] f c = tt
  look-Adds (v ∷ vs) f c = omega arith

  read_locked-Adds :
      (n : ℕ) (f : AllDronesData → ℤ) (k : ℤ → Act)
      → ((x : ℤ) → Adds n (k x))
      → Adds n (read_locked f k)
  unfolding read_locked
  read_locked-Adds n f k h =
      chain_free n _ _ (λ c. system-Adds (semaphore_lock c.answers) c)
        λ l. or_fail-Adds n l _ (
          chain_free n _ _ (λ c. look-Adds c.views f c)
            λ r.
              chain_free n _ _ (λ c. system-Adds (semaphore_unlock c.answers) c)
                λ u. or_fail-Adds n u _ (h r))

  find-Adds : (checks : List Bool) → Adds 0 (find checks)
  find-Adds [] c = tt
  find-Adds (true ∷ rest) c = omega arith
  find-Adds (false ∷ rest) c = omega arith

  shutdown_requested-Adds : Adds 0 shutdown_requested
  unfolding shutdown_requested
  shutdown_requested-Adds c = find-Adds c.checks c

  deliver-Adds : (answers : List Answer) (m : Sent) → Adds (w m) (deliver answers m)
  unfolding total
  deliver-Adds [] m c = tt
  deliver-Adds (done ∷ rest) m c = omega arith
  deliver-Adds (interrupted ∷ rest) m c = omega arith
  deliver-Adds (timed_out ∷ rest) m c = omega arith
  deliver-Adds (failed ∷ rest) m c = omega arith

  send-Adds : (m : Sent) → Adds (w m) (send m)
  unfolding send
  send-Adds m c = deliver-Adds c.answers m c

  wait_on-Adds : (checks : List Bool) (answers : List Answer) → Adds 0 (wait_on checks answers)
  unfolding wait_on
  wait_on-Adds [] answers c = tt
  wait_on-Adds (true ∷ checks) answers c = omega arith
  wait_on-Adds (false ∷ checks) [] c = tt
  wait_on-Adds (false ∷ checks) (done ∷ rest) c = omega arith
  wait_on-Adds (false ∷ checks) (interrupted ∷ rest) c = wait_on-Adds checks rest c
  wait_on-Adds (false ∷ checks) (timed_out ∷ rest) c = omega arith
  wait_on-Adds (false ∷ checks) (failed ∷ rest) c = omega arith

  wait-Adds : Adds 0 mission_wait_seconds_interruptible
  unfolding mission_wait_seconds_interruptible
  wait-Adds c = wait_on-Adds c.checks c.answers c

  unless_requested-Adds : (n : ℕ) (x : ℤ) (k : Act) → Adds n k → Adds n (unless_requested x k)
  unless_requested-Adds n (pos zero) k h = h
  unless_requested-Adds n (pos (suc z)) k h = return-Adds (pos 0) n
  unless_requested-Adds n (negsuc z) k h = h

  after_wait-Adds : (n : ℕ) (x : ℤ) (k : Act) → Adds n k → Adds n (after_wait x k)
  after_wait-Adds n (pos zero) k h = h
  after_wait-Adds n (pos (suc z)) k h = return-Adds (pos 0) n
  after_wait-Adds n (negsuc z) k h = return-Adds minus_one n

  -- What one repeat may add, all of them may add as often.
  repeat_step-Adds : (u n : ℕ) (body : Act) → Adds u body → Adds (n * u) (repeat_step n body)
  unfolding repeat_step
  repeat_step-Adds u zero body h = return-Adds (pos 0) (0 * u)
  repeat_step-Adds u (suc n) body h =
      weaken (u + n * u) (suc n * u) _ (omega (arith, suc-mul n u)) (
        chain_free (u + n * u) _ _ shutdown_requested-Adds λ f.
          unless_requested-Adds (u + n * u) f _ (
            chain_free (u + n * u) _ _ wait-Adds λ x. after_wait-Adds (u + n * u) x _ (
              chain u (n * u) body _ h
                λ b. or_fail-Adds (n * u) b _ (repeat_step-Adds u n body h))))

  increase-Adds :
      (op_pid : ℤ) (repeats : ℕ)
      → Adds (repeats * (w (add_drones op_pid) + 0)) (mission_step_increase_drones op_pid repeats)
  unfolding mission_step_increase_drones
  increase-Adds op_pid repeats = repeat_step-Adds (w (add_drones op_pid) + 0) repeats _ (
      chain (w (add_drones op_pid)) 0 _ _ (send-Adds (add_drones op_pid))
        λ r. return-Adds (pos 0) 0)

  kill_picked-Adds :
      (u : ℕ) → ((p : ℤ) → w (suicide_request p) ≤ u) → (x : ℤ) → Adds u (kill_picked x)
  kill_picked-Adds u h (negsuc zero) = return-Adds minus_one u
  kill_picked-Adds u h (negsuc (suc z)) = return-Adds (pos 0) u
  kill_picked-Adds u h (pos p) =
      weaken (w (suicide_request (pos p)) + 0) u _ (omega (arith, h (pos p))) (
        chain (w (suicide_request (pos p))) 0 _ _ (send-Adds (suicide_request (pos p)))
          λ r. return-Adds (pos 0) 0)

  kill-Adds :
      (u : ℕ)
      → ((p : ℤ) → w (suicide_request p) ≤ u)
      → (repeats : ℕ) → Adds (repeats * u) (mission_step_kill_drones repeats)
  unfolding mission_step_kill_drones pick_dron_pid_from_shm
  kill-Adds u h repeats = repeat_step-Adds u repeats _ (
      chain_free u _ _ (read_locked-Adds 0 get_dron_pid return (λ x. return-Adds x 0))
        (kill_picked-Adds u h))

  decrease_from-Adds :
      (vs : List AllDronesData) (op_pid maximum : ℤ)
      → w (subtract_drones op_pid) ≡ 0
      → Adds 0 (decrease_from vs op_pid maximum)
  unfolding decrease_from
  decrease_from-Adds [] op_pid maximum z =
      either_way (Adds 0) (leb_ℤ maximum (pos 0)) _ _ (return-Adds (pos 0) 0)
        (chain_free 0 _ _ shutdown_requested-Adds λ f. unless_requested-Adds 0 f _ (λ c. tt))
  decrease_from-Adds (v ∷ vs) op_pid maximum z =
      either_way (Adds 0) (leb_ℤ maximum (pos 0)) _ _ (return-Adds (pos 0) 0) (
        chain_free 0 _ _ shutdown_requested-Adds λ f. unless_requested-Adds 0 f _ (
          read_locked-Adds 0 _ _ λ m.
            chain_free 0 _ _
              (weaken (w (subtract_drones op_pid)) 0 _ (omega (arith, z))
                (send-Adds (subtract_drones op_pid)))
              λ r.
                chain_free 0 _ _ wait-Adds
                  λ x. after_wait-Adds 0 x _ (decrease_from-Adds vs op_pid m z)))

  plan-Adds :
      (u : ℕ) (op_pid : ℤ)
      → ((p : ℤ) → w (suicide_request p) ≤ u)
      → w (subtract_drones op_pid) ≡ 0
      → Adds (3 * (w (add_drones op_pid) + 0) + (10 * u + 0)) (run_mission_plan op_pid)
  unfolding run_mission_plan mission_step_decrease_drones_to_0
  plan-Adds u op_pid h z =
      chain (3 * (w (add_drones op_pid) + 0)) (10 * u + 0) _ _ (increase-Adds op_pid 3) λ a.
        or_fail-Adds (10 * u + 0) a _ (
          chain (10 * u) 0 _ _ (kill-Adds u h 10) λ b. or_fail-Adds 0 b _ (
            chain_free 0 _ _ (read_locked-Adds 0 _ _ λ m c. decrease_from-Adds c.views op_pid m z c)
              λ d. or_fail-Adds 0 d _ (return-Adds (pos 0) 0)))

-- Requests to add drones, and requests to a drone to end.
abbrev pub is_add : Sent → ℕ
is_add (add_drones p) = 1
is_add _ = 0

abbrev pub is_suicide_request : Sent → ℕ
is_suicide_request (suicide_request p) = 1
is_suicide_request _ = 0

-- However the system answers, a mission plan that returns has sent at most 3 requests to add drones
-- and at most 10 requests to a drone to end, on top of what was sent before.
pub run_mission_plan-Within :
    (op_pid : ℤ) (c : Commander)
    → Within is_add (total is_add c.sent) 3 (run_mission_plan op_pid c)
      × Within is_suicide_request (total is_suicide_request c.sent) 10 (run_mission_plan op_pid c)
run_mission_plan-Within op_pid c = (
  plan-Adds is_add 0 op_pid (λ p. omega arith) refl c,
  plan-Adds is_suicide_request 1 op_pid (λ p. omega arith) refl c,
)
