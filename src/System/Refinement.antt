-- ===== src/System/Refinement.antt =====
-- The functions of a drone (src/dron/dron.c) are runs of the step relation: what a call does to the
-- shared memory and to its own process, the steps of the swarm can do, one critical section at a time.
pub mod Moves
use so_lab_project.Prelude.{
  by_test, List, [], ◌∷◌, ℕ, ◌+◌, ◌-◌, ◌<◌, ◌≡◌, refl, sym, subst, inl, inr, true, false,
  Bool-cases, some, pos, negsuc, zero, suc, arith, get_elem?, set, set-set, set-get_elem?,
  get_elem?-set_self, get_elem?-lt, ltb, leb, leb_ℤ,
}
use so_lab_project.Shm.{
  Location, base, mission, DestructionReason, out_of_power, decommissioned, suicide, is_base,
  is_mission,
}
use so_lab_project.Dron.{Shared, DronInternalData, has_room, reserve, entered, left}
use so_lab_project.Dron.Reserving.{reserve-had, reserve-room, reserve-full}
use so_lab_project.Dron.Code.{
  World, Outcome, Code, ret, exited, blocked, follow, return, leave_swarm, process_sigusr1,
  battery_state_check, force_base_return, force_leave_base, go_for_charge, arrive, depart,
  through_gate, close_main,
}
use so_lab_project.Dron.Calls.{Tolerant, lock_rule, unlock_rule}
use so_lab_project.Dron.Gate.{gate_rule}
use so_lab_project.Dron.Loop.{or_close, or_close_negative, travel, check_and_travel, round}
use so_lab_project.System.{
  Swarm, Step, Proc, Phase, Direction, active, gone, idle, waiting, inside, past, inward, outward,
  reserves, turns, gives_up, enters_gate, leaves_gate, arrives, departs, removes,
}
use so_lab_project.System.Traces.{Label, entering, labelled, Traced, at_start, onward, passages}
use so_lab_project.Ipc.{Answer}
use so_lab_project.System.Refinement.Moves.{
  moved, Stands, Refines, Refines-Tolerant, at_k, begin, stays, passes, follow-Refines,
  follow_negative-Refines,
}

base-location : (l : Location) → is_base l ≡ true → l ≡ base
base-location l h = ground arith

mission-location : (l : Location) → is_mission l ≡ true → l ≡ mission
mission-location l h = ground arith

module _ (n : ℕ) (s : Swarm) (k : ℕ) (b : World) (start_ : Proc)
    (present : get_elem? s.procs k ≡ some start_) where
  -- Where the swarm stands when process `k` is at a phase with the world `w`.
  abbrev At : Phase → World → Type 0
  At ph w = Stands n s k b (active ph w.me) w

  at : (p : Proc) → get_elem? (set s.procs k p) k ≡ some p
  at = at_k n s k b start_ present

  -- One more step.
  on :
      (p p' : Proc) (w : World) (sh' : Shared)
      (st : Step n
        (moved s k s.tokens p w.shared)
        (record { shared = sh'; tokens = s.tokens; procs = set (set s.procs k p) k p' }))
      → ((ls : List Label) → labelled st ls ≡ ls)
      → Stands n s k b p w
      → Stands n s k b p' (record w { shared = sh' })
  on = stays n s k b start_ present

  module _ (free_gate : 0 < s.tokens) where
    leave_swarm-Refines :
        (reason : DestructionReason) (w : World)
        → At idle w
        → Refines n s k b (leave_swarm reason w)
    unfolding leave_swarm close_main
    leave_swarm-Refines reason w r =
        lock_rule (Refines n s k b) (Refines-Tolerant n s k b) _ w λ rest.
          unlock_rule (Refines n s k b) (Refines-Tolerant n s k b) _ _ λ rest'.
            on (active idle w.me) gone w _ (removes k w.me reason (at (active idle w.me)))
              (λ ls. refl) r

    arrive-Refines : (w : World) → At (past inward) w → Refines n s k b (arrive w)
    unfolding arrive
    arrive-Refines w r = lock_rule (Refines n s k b) (Refines-Tolerant n s k b) _ w λ rest.
        unlock_rule (Refines n s k b) (Refines-Tolerant n s k b) _ _ λ rest'.
          on (active (past inward) w.me) (active idle (entered w.me)) w _
            (arrives k w.me (at (active (past inward) w.me))) (λ ls. refl) r

    depart-Refines : (w : World) → At (past outward) w → Refines n s k b (depart w)
    unfolding depart
    depart-Refines w r = lock_rule (Refines n s k b) (Refines-Tolerant n s k b) _ w λ rest.
        unlock_rule (Refines n s k b) (Refines-Tolerant n s k b) _ _ λ rest'.
          on (active (past outward) w.me) (active idle (left w.me)) w _
            (departs k w.me (at (active (past outward) w.me))) (λ ls. refl) r

    through_gate-Refines :
        (to : Direction) (code : Code) (w : World)
        → At (waiting to) w
        → ((w' : World) → At (past to) w' → Refines n s k b (code w'))
        → Refines n s k b (through_gate code w)
    through_gate-Refines to code w r then_code =
        gate_rule (Refines n s k b) (Refines-Tolerant n s k b) code w
          (λ rest.
            on (active (waiting to) w.me) (active idle w.me) w _
              (gives_up k w.me to (at (active (waiting to) w.me))) (λ ls. refl) r)
          (λ rest.
            then_code (record w { answers = rest; taken = w.taken + 1 })
              (passes n s k b start_ present free_gate to w r))

    -- On to the gate with a reservation.
    reserved-Refines :
        (w : World) (sh : Shared) (me : DronInternalData)
        → w.me.location ≡ mission
        → leb_ℤ w.me.loading_cycles_left (pos 0) ≡ false
        → reserve w.shared w.me ≡ (true, sh, me)
        → At idle w
        → (answers : List Answer)
        → Refines n s k b (
            through_gate arrive
              (record w { answers = answers; locked = false; shared = sh; me = me }))
    reserved-Refines w sh me l f e r answers =
        through_gate-Refines inward arrive
          (record w { answers = answers; locked = false; shared = sh; me = me })
          (on (active idle w.me) (active (waiting inward) me) w sh
            (reserves k w.me me sh (at (active idle w.me)) l f e) (λ ls. refl) r)
          arrive-Refines

    go_for_charge-Refines :
        (w : World)
        → w.me.location ≡ mission
        → leb_ℤ w.me.loading_cycles_left (pos 0) ≡ false
        → At idle w
        → Refines n s k b (go_for_charge w)
    unfolding go_for_charge
    go_for_charge-Refines w l c r =
        lock_rule (Refines n s k b) (Refines-Tolerant n s k b) _ w λ rest.
          unlock_rule (Refines n s k b) (Refines-Tolerant n s k b) _ _ λ rest'.
            elim (Bool-cases w.me.have_reserved_space) [
              | inl had ↦
                  let e = reserve-had w.shared w.me had in
                  rw e (reserved-Refines w _ _ l c e r rest')
              | inr none_yet ↦ elim (Bool-cases (has_room w.shared.all)) [
                | inl room ↦
                    let e = reserve-room w.shared w.me none_yet room in
                    rw e (reserved-Refines w _ _ l c e r rest')
                | inr full ↦ rw (reserve-full w.shared w.me none_yet full) r
              ]
            ]

    process_sigusr1-Refines : (w : World) → At idle w → Refines n s k b (process_sigusr1 w)
    unfolding process_sigusr1
    process_sigusr1-Refines w r = elim (Bool-cases (ltb 20 w.battery_percentage)) [
      | inl strong ↦ rw strong (leave_swarm-Refines suicide (record w { got_sigusr1 = false }) r)
      | inr weak ↦ rw weak r
    ]

    battery_state_check-Refines : (w : World) → At idle w → Refines n s k b (battery_state_check w)
    unfolding battery_state_check
    battery_state_check-Refines w r = elim (Bool-cases (leb w.battery_percentage 0)) [
      | inl empty ↦ rw empty (leave_swarm-Refines out_of_power w r)
      | inr some_left ↦ rw some_left r
    ]

    force_base_return-Refines :
        (w : World) → w.me.location ≡ mission → At idle w → Refines n s k b (force_base_return w)
    unfolding force_base_return
    force_base_return-Refines w l r = elim (Bool-cases (ltb w.battery_percentage 20)) [
      | inl low ↦ elim (Bool-cases (leb_ℤ w.me.loading_cycles_left (pos 0))) [
        | inl worn ↦ rw (low, worn) (leave_swarm-Refines decommissioned w r)
        | inr fit ↦ rw (low, fit) (go_for_charge-Refines w l fit r)
      ]
      | inr high ↦ rw high r
    ]

    force_leave_base-Refines : (w : World) → At idle w → Refines n s k b (force_leave_base w)
    unfolding force_leave_base
    force_leave_base-Refines w r = elim (Bool-cases (leb 100 w.battery_percentage)) [
      | inl full ↦ elim (Bool-cases (is_base w.me.location)) [
        | inl home ↦
            rw (full, home)
              (through_gate-Refines outward depart w
                (on (active idle w.me) (active (waiting outward) w.me) w _
                  (turns k w.me (at (active idle w.me)) (base-location w.me.location home))
                  (λ ls. refl) r)
                depart-Refines)
        | inr away ↦ rw (full, away) r
      ]
      | inr low ↦ rw low r
    ]

    travel-Refines : (w : World) → At idle w → Refines n s k b (travel w)
    unfolding travel
    travel-Refines w r =
        by_test (Refines n s k b) (is_mission w.me.location) _ _
          (λ away.
            follow_negative-Refines n s k b (force_base_return w)
              (force_base_return-Refines w (mission-location w.me.location away) r))
          (λ not_away.
            by_test (Refines n s k b) (is_base w.me.location) _ _
              (λ home.
                follow_negative-Refines n s k b (force_leave_base w) (force_leave_base-Refines w r))
              (λ nowhere. r))

    check_and_travel-Refines : (w : World) → At idle w → Refines n s k b (check_and_travel w)
    unfolding check_and_travel
    check_and_travel-Refines w r =
        follow-Refines n s k b (battery_state_check w) travel (battery_state_check-Refines w r)
          travel-Refines

    round_from : (w : World) → At idle w → Refines n s k b (round w)
    unfolding round
    round_from w r =
        by_test (Refines n s k b) w.got_sigusr1 _ _
          (λ signalled.
            follow-Refines n s k b (process_sigusr1 w) check_and_travel
              (process_sigusr1-Refines w r) check_and_travel-Refines)
          (λ quiet. check_and_travel-Refines w r)

-- One round of a drone's loop, from any state of the swarm in which a token lies in the gate and
-- the drone stands in its loop with the shared memory as the swarm has it, is a run of the swarm:
-- if the round returns 0, the swarm can reach the shared memory that it leaves, with the drone back
-- in its loop; if it ends the process with success, the same with the drone gone. In this run the
-- drone goes through the gate of the swarm once for each token that the code read, taking a token
-- and putting it back, and the code holds as many tokens as before. No round returns a positive
-- code. Rounds that fail or wait are left out.
pub round-Refines :
    (n : ℕ) (s : Swarm) (k : ℕ) (w : World)
    → get_elem? s.procs k ≡ some (active idle w.me)
    → s.shared ≡ w.shared
    → 0 < s.tokens
    → Refines n s k w (round w)
round-Refines n s k w present same free_gate =
    round_from n s k w (active idle w.me) present free_gate w (
      0,
      omega arith,
      refl,
      subst (λ sh. Traced n s [] (moved s k s.tokens (active idle w.me) sh)) same
          (begin n s k w (active idle w.me) present),
    )
