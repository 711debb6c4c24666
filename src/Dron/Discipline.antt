-- ===== src/Dron/Discipline.antt =====
-- What a drone (src/dron/dron.c) holds between two rounds: no semaphore, and no token of the gate.
use so_lab_project.Prelude.{
  by_test, ◌+◌, ℕ, zero, suc, ◌≡◌, refl, false, pos, negsuc, ltb, leb, leb_ℤ,
}
use so_lab_project.Shm.{
  DestructionReason, out_of_power, decommissioned, suicide, is_base, is_mission,
}
use so_lab_project.Dron.{reserve, register, placed, registered}
use so_lab_project.Dron.Code.{
  World, Outcome, Code, ret, exited, blocked, follow, return, leave_swarm, process_sigusr1,
  battery_state_check, force_base_return, force_leave_base, go_for_charge, arrive, depart,
  through_gate, close_main,
}
use so_lab_project.Dron.Calls.{Tolerant, lock_rule, unlock_rule}
use so_lab_project.Dron.Gate.{gate_rule}
use so_lab_project.Dron.Loop.{or_close, or_close_negative, travel, check_and_travel, round}

-- A call that returned 0, or ended the process with success, has given the semaphore back and holds
-- `t` tokens; no positive code is returned, and no other exit code than 0 and 1 is there.
abbrev pub Tidy : ℕ → Outcome × World → Type 0
Tidy t (ret (pos zero), w) = (w.locked ≡ false) × (w.tokens ≡ t)
Tidy t (ret (pos (suc c)), w) = ⊥
Tidy t (ret (negsuc c), w) = Unit {0}
Tidy t (exited zero, w) = (w.locked ≡ false) × (w.tokens ≡ t)
Tidy t (exited (suc zero), w) = Unit {0}
Tidy t (exited (suc (suc e)), w) = ⊥
Tidy t (blocked, w) = Unit {0}

-- A part of `main`: it goes on with 0, or it ends the process.
abbrev pub Settled : ℕ → Outcome × World → Type 0
Settled t (ret (pos (suc c)), w) = ⊥
Settled t (ret (negsuc c), w) = ⊥
Settled t r = Tidy t r

module _ (t : ℕ) where
  pub tolerant : Tolerant (Tidy t)
  tolerant = record { waits = λ w. tt; fails = λ c w. tt }

  -- The state between two calls.
  abbrev pub Calm : World → Type 0
  Calm w = (w.locked ≡ false) × (w.tokens ≡ t)

  leave_swarm-Tidy :
      (reason : DestructionReason) (w : World) → w.tokens ≡ t → Tidy t (leave_swarm reason w)
  unfolding leave_swarm close_main
  leave_swarm-Tidy reason w h =
      lock_rule (Tidy t) tolerant _ w λ rest. unlock_rule (Tidy t) tolerant _ _ λ rest'. (refl, h)

  arrive-Tidy : (w : World) → w.tokens ≡ t → Tidy t (arrive w)
  unfolding arrive
  arrive-Tidy w h =
      lock_rule (Tidy t) tolerant _ w λ rest. unlock_rule (Tidy t) tolerant _ _ λ rest'. (refl, h)

  depart-Tidy : (w : World) → w.tokens ≡ t → Tidy t (depart w)
  unfolding depart
  depart-Tidy w h =
      lock_rule (Tidy t) tolerant _ w λ rest. unlock_rule (Tidy t) tolerant _ _ λ rest'. (refl, h)

  through_gate-Tidy :
      (code : Code) (w : World)
      → ((w' : World) → w'.tokens ≡ t → Tidy t (code w'))
      → Calm w
      → Tidy t (through_gate code w)
  through_gate-Tidy code w f h =
      gate_rule (Tidy t) tolerant code w (λ rest. h)
        (λ rest. f (record w { answers = rest; taken = w.taken + 1 }) h.1)

  go_for_charge-Tidy : (w : World) → w.tokens ≡ t → Tidy t (go_for_charge w)
  unfolding go_for_charge
  go_for_charge-Tidy w h = lock_rule (Tidy t) tolerant _ w λ rest.
      unlock_rule (Tidy t) tolerant _ _ λ rest'.
        let (go, sh, me) = reserve w.shared w.me in
        let v : World = record w { answers = rest'; locked = false; shared = sh; me = me } in
        by_test (λ code. Tidy t (code v)) go (through_gate arrive) (return (pos 0))
          (λ goes. through_gate-Tidy arrive v arrive-Tidy (refl, h)) (λ stays. (refl, h))

  process_sigusr1-Tidy : (w : World) → Calm w → Tidy t (process_sigusr1 w)
  unfolding process_sigusr1
  process_sigusr1-Tidy w h =
      by_test (Tidy t) (ltb 20 w.battery_percentage) _ _
        (λ strong. leave_swarm-Tidy suicide (record w { got_sigusr1 = false }) h.1) (λ weak. h)

  battery_state_check-Tidy : (w : World) → Calm w → Tidy t (battery_state_check w)
  unfolding battery_state_check
  battery_state_check-Tidy w h =
      by_test (Tidy t) (leb w.battery_percentage 0) _ _
        (λ empty. leave_swarm-Tidy out_of_power w h.1) (λ charged. h)

  force_base_return-Tidy : (w : World) → Calm w → Tidy t (force_base_return w)
  unfolding force_base_return
  force_base_return-Tidy w h =
      by_test (Tidy t) (ltb w.battery_percentage 20) _ _
        (λ low.
          by_test (Tidy t) (leb_ℤ w.me.loading_cycles_left (pos 0)) _ _
            (λ worn. leave_swarm-Tidy decommissioned w h.1) (λ fit. go_for_charge-Tidy w h.1))
        (λ high. h)

  force_leave_base-Tidy : (w : World) → Calm w → Tidy t (force_leave_base w)
  unfolding force_leave_base
  force_leave_base-Tidy w h =
      by_test (Tidy t) (leb 100 w.battery_percentage) _ _
        (λ full.
          by_test (Tidy t) (is_base w.me.location) _ _
            (λ home. through_gate-Tidy depart w depart-Tidy h) (λ away. h))
        (λ low. h)

  follow-Settled :
      (r : Outcome × World) (code : Code)
      → Tidy t r
      → ((w : World) → Calm w → Settled t (code w))
      → Settled t (follow r (λ c. or_close c code))
  unfolding close_main
  follow-Settled (ret (pos zero), w) code h f = f w h
  follow-Settled (ret (pos (suc c)), w) code h f = absurd h
  follow-Settled (ret (negsuc c), w) code h f = tt
  follow-Settled (exited zero, w) code h f = h
  follow-Settled (exited (suc zero), w) code h f = tt
  follow-Settled (exited (suc (suc e)), w) code h f = absurd h
  follow-Settled (blocked, w) code h f = tt

  follow_negative-Settled :
      (r : Outcome × World)
      → Tidy t r
      → Settled t (follow r (λ c. or_close_negative c (return (pos 0))))
  unfolding close_main
  follow_negative-Settled (ret (pos zero), w) h = h
  follow_negative-Settled (ret (pos (suc c)), w) h = absurd h
  follow_negative-Settled (ret (negsuc c), w) h = tt
  follow_negative-Settled (exited zero, w) h = h
  follow_negative-Settled (exited (suc zero), w) h = tt
  follow_negative-Settled (exited (suc (suc e)), w) h = absurd h
  follow_negative-Settled (blocked, w) h = tt

  travel-Settled : (w : World) → Calm w → Settled t (travel w)
  unfolding travel
  travel-Settled w h =
      by_test (Settled t) (is_mission w.me.location) _ _
        (λ away. follow_negative-Settled (force_base_return w) (force_base_return-Tidy w h))
        (λ not_away.
          by_test (Settled t) (is_base w.me.location) _ _
            (λ home. follow_negative-Settled (force_leave_base w) (force_leave_base-Tidy w h))
            (λ nowhere. h))

  check_and_travel-Settled : (w : World) → Calm w → Settled t (check_and_travel w)
  unfolding check_and_travel
  check_and_travel-Settled w h =
      follow-Settled (battery_state_check w) travel (battery_state_check-Tidy w h) travel-Settled

  pub round-Settled : (w : World) → Calm w → Settled t (round w)
  unfolding round
  round-Settled w h =
      by_test (Settled t) w.got_sigusr1 _ _
        (λ signalled.
          follow-Settled (process_sigusr1 w) check_and_travel (process_sigusr1-Tidy w h)
            check_and_travel-Settled)
        (λ quiet. check_and_travel-Settled w h)

Settled-Tidy : (t : ℕ) (r : Outcome × World) → Settled t r → Tidy t r
Settled-Tidy t (ret (pos zero), w) h = h
Settled-Tidy t (ret (pos (suc c)), w) h = absurd h
Settled-Tidy t (ret (negsuc c), w) h = tt
Settled-Tidy t (exited e, w) h = h
Settled-Tidy t (blocked, w) h = tt

-- However the system answers, a round of the drone's loop that starts without the semaphore and
-- returns 0, or ends the process with success, has given the semaphore back and holds as many gate
-- tokens as before; no round returns a positive code or exits with another code than 0 and 1. (A round
-- may also fail or wait.)
pub round-Tidy : (w : World) → w.locked ≡ false → Tidy w.tokens (round w)
round-Tidy w h = Settled-Tidy w.tokens (round w) (round-Settled w.tokens w (h, refl))

-- How a registration can end: with 0, the semaphore given back and a slot taken; or with -1.
abbrev pub Registers : World → Outcome × World → Type 0
Registers w (ret (pos zero), v) =
    (v.locked ≡ false)
    × ((i : ℕ) × (id : ℕ) × (register w.shared w.local_data ≡ placed i id v.shared)
        × (v.me ≡ registered w.me i id))
Registers w (ret (pos (suc c)), v) = ⊥
Registers w (ret (negsuc c), v) = Unit {0}
Registers w (exited e, v) = ⊥
Registers w (blocked, v) = Unit {0}
