-- ===== src/System/Safety.antt =====
-- What holds in every reachable state of the swarm.
use so_lab_project.Prelude.{
  ℕ, zero, suc, ℕ_discrete, ◌+◌, ◌≤◌, ◌<◌, ◌≡◌, refl, sym, ap, ◌∙◌, subst, List, [], ◌∷◌, some, pos,
  arith, get_elem?, total, is_at, is_at_self, length, weight-others,
}
use so_lab_project.Stack.{Stack}
use so_lab_project.Shm.{DronData, location_at}
use so_lab_project.Shm.Consistency.{live, in_base}
use so_lab_project.Dron.{Shared, DronInternalData, slot}
use so_lab_project.Setup.{Settings, create_shm_all_drones_data}
use so_lab_project.Setup.Filling.{create_shm_all_drones_data-IsConsistent}
use so_lab_project.System.{Swarm, Step, Phase, active, gone}
use so_lab_project.System.Invariant.{
  Inv, reserved, holds_token, owns, live_slot, own_view, active-slot,
}
use so_lab_project.System.Reach.{Step-Inv}

-- The swarm after the set-up: no process yet, and both tokens in the gate.
abbrev pub start : Shared → Swarm
start sh = record { shared = sh; tokens = 2; procs = [] }

pub data Reach (n : ℕ) (s : Swarm) : Swarm → Type 0 where
  here : Reach n s s
  next : {t u : Swarm} → Reach n s t → Step n t u → Reach n s u

-- What the set-up relies on: room for at least one drone and at most `ARGS_MAX_MEMORY` of them, and
-- two segments of that size, which the system hands out zeroed.
pub record IsFresh (s : Settings) (block : List DronData) (st : Stack ℕ) : Type 0 where
  pub some_memory : 0 < s.maximum_drones_in_memory
  pub bounded : s.maximum_drones_in_memory ≤ 2500000
  pub drones_room : length block ≡ s.maximum_drones_in_memory
  pub stack_room : length st.cells ≡ s.maximum_drones_in_memory
  pub zeroed : total live block ≡ 0

-- The swarms that a run can lead to, from the set-up on.
pub data Runs (s : Settings) (block : List DronData) (st : Stack ℕ) (t : Swarm) : Type 0 where
  runs :
      (sh : Shared)
      → create_shm_all_drones_data s block st ≡ some sh
      → Reach s.cfg.starting_drones_count (start sh) t
      → Runs s block st t

live_slot-unused : (l : List DronData) (i : ℕ) → total live l ≡ 0 → live_slot (get_elem? l i) ≡ 0
unfolding total
live_slot-unused [] i h = refl
live_slot-unused (x ∷ l) zero h = omega arith
live_slot-unused (x ∷ l) (suc i) h = live_slot-unused l i (omega arith)

start-Inv :
    (s : Settings) (block : List DronData) (st : Stack ℕ) (sh : Shared)
    → IsFresh s block st
    → create_shm_all_drones_data s block st ≡ some sh
    → Inv (start sh)
unfolding total
start-Inv s block st sh f e =
    let (sh', e', c, cap, size, count, res, max, drones) =
      create_shm_all_drones_data-IsConsistent s block st f.some_memory f.bounded f.drones_room
        f.stack_room f.zeroed in
    let same : sh' ≡ sh = cc in
    subst (λ z. Inv (start z)) same
      (record {
        consistent = c;
        reservations = res;
        gate = refl;
        owned = λ i. sym (live_slot-unused sh'.all.drones i (ap (total live) drones ∙ f.zeroed));
        agrees = λ k. tt;
      })

Reach-Inv : {n : ℕ} {s t : Swarm} → Inv s → Reach n s t → Inv t
Reach-Inv v here = v
Reach-Inv v (next r st) = Step-Inv st (Reach-Inv v r)

pub Runs-Inv :
    {s : Settings} {block : List DronData} {st : Stack ℕ} {t : Swarm}
    → IsFresh s block st
    → Runs s block st t
    → Inv t
Runs-Inv {s} {block} {st} f (runs sh e r) = Reach-Inv (start-Inv s block st sh f e) r

module _ (s : Settings) (block : List DronData) (st : Stack ℕ) (f : IsFresh s block st) (t : Swarm)
    (r : Runs s block st t) where
  -- Along every run at most two drones are inside the gate at once, and no token is lost or made up.
  pub gate_capacity : (total holds_token t.procs ≤ 2) × (t.tokens + total holds_token t.procs ≡ 2)
  gate_capacity = (omega (arith, (Runs-Inv f r).gate), (Runs-Inv f r).gate)

  -- Along every run the counters in the shared memory say what is there: the slots in use, those of
  -- them in the base, the reservations that drones hold; and the free stack has the other slots.
  pub counters_exact :
      (t.shared.all.dron_count ≡ pos (total live t.shared.all.drones))
      × (t.shared.all.dron_in_base_count ≡ pos (total in_base t.shared.all.drones))
      × (t.shared.all.dron_reserving_space_count ≡ pos (total reserved t.procs))
      × (t.shared.free.size + total live t.shared.all.drones ≡ t.shared.all.capacity)
  counters_exact =
      let v = Runs-Inv f r in
      (v.consistent.counted, v.consistent.based, v.reservations, v.consistent.split)

  -- Along every run two drones that have registered and are not removed never share a slot.
  pub slots_exclusive :
      (j k : ℕ) (ph ph' : Phase) (me me' : DronInternalData)
      → get_elem? t.procs j ≡ some (active ph me)
      → get_elem? t.procs k ≡ some (active ph' me')
      → slot me ≡ slot me'
      → j ≡ k
  slots_exclusive j k ph ph' me me' hj hk e = elim (ℕ_discrete j k) [
    | yes same ↦ same
    | no n ↦
        let alone = (active-slot t (Runs-Inv f r) j ph me hj).4 in
        absurd (
          omega (
            arith,
            weight-others (owns (slot me)) t.procs j k (active ph me) (active ph' me') gone refl hj
                (alone ∙ sym (is_at_self (slot me))) n hk,
            ap (is_at (slot me)) e,
            is_at_self (slot me),
          ))
  ]

  -- Along every run the slot of such a drone holds the location that the drone itself believes in.
  pub location_agrees :
      (k : ℕ) (ph : Phase) (me : DronInternalData)
      → get_elem? t.procs k ≡ some (active ph me)
      → location_at t.shared.all (slot me) ≡ me.location
  location_agrees k ph me h = (own_view t (Runs-Inv f r) k (active ph me) h).0
