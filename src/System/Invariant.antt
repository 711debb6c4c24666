-- ===== src/System/Invariant.antt =====
-- What links the shared memory, the gate and the drone processes in every reachable state.
use so_lab_project.Prelude.{
  ℕ, ◌+◌, ◌≡◌, ◌≢◌, refl, sym, ap, ◌∙◌, subst, inl, inr, Bool, true, false, List, Option, none,
  some, pos, arith, ℕ_discrete, get_elem?, get_elem?-set_self, get_elem?-set_ne, get_elem?-lt, set,
  total, is_at, weight-others, Option-cases, is_at_self, ◌<◌, weight-le-total,
}
use so_lab_project.Shm.{
  Location, undefine, base, mission, DronData, AllDronesData, location_at, location_of,
}
use so_lab_project.Shm.Consistency.{IsConsistent, live}
use so_lab_project.Dron.{DronInternalData, slot}
use so_lab_project.System.{
  inward, outward, Phase, idle, waiting, inside, past, stopped, Proc, starting, active, gone,
  IsBorn, Swarm,
}

abbrev pub reserved : Proc → ℕ
reserved (active ph me) = elim me.have_reserved_space [ true ↦ 1 | false ↦ 0 ]
reserved _ = 0

abbrev pub holds_token : Proc → ℕ
holds_token (active (inside to) me) = 1
holds_token _ = 0

abbrev pub owns : ℕ → Proc → ℕ
owns i (active ph me) = is_at i (slot me)
owns i _ = 0

abbrev pub live_slot : Option DronData → ℕ
live_slot none = 0
live_slot (some x) = live x

-- Where a drone can stand, by its own location and reservation.
abbrev pub allowed : Location → Bool → Phase → Bool
allowed base false idle = true
allowed base false stopped = true
allowed base false (waiting outward) = true
allowed base false (inside outward) = true
allowed base false (past outward) = true
allowed mission r idle = true
allowed mission r stopped = true
allowed mission true (waiting inward) = true
allowed mission true (inside inward) = true
allowed mission true (past inward) = true
allowed _ _ _ = false

-- A drone's own view agrees with its slot.
abbrev pub Agrees : AllDronesData → Proc → Type 0
Agrees d (starting x me) = IsBorn x me
Agrees d (active ph me) =
    (location_at d (slot me) ≡ me.location) × (allowed me.location me.have_reserved_space ph ≡ true)
Agrees d gone = Unit {0}

abbrev pub AgreesAt : AllDronesData → Option Proc → Type 0
AgreesAt d none = Unit {0}
AgreesAt d (some p) = Agrees d p

pub record Inv (s : Swarm) : Type 0 where
  pub consistent : IsConsistent s.shared.all s.shared.free
  pub reservations : s.shared.all.dron_reserving_space_count ≡ pos (total reserved s.procs)
  pub gate : s.tokens + total holds_token s.procs ≡ 2
  pub owned : (i : ℕ) → total (owns i) s.procs ≡ live_slot (get_elem? s.shared.all.drones i)
  pub agrees : (k : ℕ) → AgreesAt s.shared.all (get_elem? s.procs k)

pub Agrees-at :
    (d : AllDronesData) (o : Option Proc) (p : Proc) → o ≡ some p → AgreesAt d o → Agrees d p
Agrees-at d o p e h = subst (AgreesAt d) e h

-- After a write at `k`: the new entry agrees, and the others still do.
pub AgreesAt-set :
    (d : AllDronesData) (ps : List Proc) (k : ℕ) (p p' : Proc)
    → get_elem? ps k ≡ some p
    → Agrees d p'
    → ((j : ℕ) → k ≢ j → AgreesAt d (get_elem? ps j))
    → (j : ℕ) → AgreesAt d (get_elem? (set ps k p') j)
AgreesAt-set d ps k p p' h new others j = elim (ℕ_discrete k j) [
  | yes e ↦
      subst (λ m. AgreesAt d (get_elem? (set ps k p') m)) e
        (subst (AgreesAt d) (sym (get_elem?-set_self ps k p' (get_elem?-lt ps k p h))) new)
  | no n ↦ subst (AgreesAt d) (sym (get_elem?-set_ne ps k j p' n)) (others j n)
]

-- A change of one slot does not disturb the processes that do not own it.
pub Agrees-frame :
    (d d' : AllDronesData) (i : ℕ) (p : Proc)
    → ((j : ℕ) → i ≢ j → location_at d' j ≡ location_at d j)
    → owns i p ≡ 0
    → Agrees d p
    → Agrees d' p
Agrees-frame d d' i (starting x me) same o h = h
Agrees-frame d d' i (active ph me) same o h = (same (slot me) (λ e. ground arith) ∙ h.0, h.1)
Agrees-frame d d' i gone same o h = h

pub AgreesAt-frame :
    (d d' : AllDronesData) (i k j : ℕ) (ps : List Proc) (p : Proc)
    → ((j : ℕ) → i ≢ j → location_at d' j ≡ location_at d j)
    → get_elem? ps k ≡ some p
    → total (owns i) ps ≡ owns i p
    → k ≢ j
    → AgreesAt d (get_elem? ps j)
    → AgreesAt d' (get_elem? ps j)
AgreesAt-frame d d' i k j ps p same h whole ne a = elim (Option-cases (get_elem? ps j)) [
  | inl e ↦ rw e tt
  | inr (q, e) ↦ subst (AgreesAt d') (sym e) (
      Agrees-frame d d' i q same (weight-others (owns i) ps k j p q gone refl h whole ne e)
        (subst (AgreesAt d) e a))
]

-- What the invariant says of the process at `k`.
module _ (s : Swarm) (v : Inv s) (k : ℕ) (p : Proc) (h : get_elem? s.procs k ≡ some p) where
  pub own_view : Agrees s.shared.all p
  own_view = subst (AgreesAt s.shared.all) h (v.agrees k)

live_slot-pos :
    (o : Option DronData)
    → 0 < live_slot o
    → (x : DronData) × (o ≡ some x) × (x.location ≢ undefine) × (live_slot o ≡ 1)
live_slot-pos none h = absurd (omega arith)
live_slot-pos (some x) h = (x, refl, (λ e. ground arith), ground arith)

-- The slot of an active process is in use, and only this process owns it.
pub active-slot :
    (s : Swarm) (v : Inv s) (k : ℕ) (ph : Phase) (me : DronInternalData)
    → get_elem? s.procs k ≡ some (active ph me)
    → (x : DronData) × (get_elem? s.shared.all.drones (slot me) ≡ some x)
      × (x.location ≡ me.location)
      × (x.location ≢ undefine)
      × (total (owns (slot me)) s.procs ≡ 1)
active-slot s v k ph me h =
    let (x, e, used, one) = live_slot-pos (get_elem? s.shared.all.drones (slot me)) some_owner in
    (
      x,
      e,
      sym (ap location_of e) ∙ (own_view s v k (active ph me) h).0,
      used,
      v.owned (slot me) ∙ one,
    )
  where
    some_owner : 0 < live_slot (get_elem? s.shared.all.drones (slot me))
    some_owner = omega (
      arith,
      v.owned (slot me),
      weight-le-total (owns (slot me)) s.procs k (active ph me) h,
      is_at_self (slot me),
    )
