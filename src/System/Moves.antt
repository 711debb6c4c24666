-- ===== src/System/Moves.antt =====
-- Steps that move a drone into or out of the base, and out of the swarm.
use so_lab_project.Prelude.{
  ℕ, ◌≡◌, refl, sym, ap, ◌∙◌, Bool, true, false, Bool-cases, inl, inr, some, pos, arith, get_elem?,
  set, total, total-set, is_at_self, is_at_ne, pos-down, ◌-ℤ◌, if◌then◌else◌,
}
use so_lab_project.Shm.{Location, undefine, base, mission, DestructionReason, location_of}
use so_lab_project.Shm.Moving.{
  update-mission, update-base, entered-IsConsistent, left-IsConsistent, get_elem?-put_location_self,
  get_elem?-put_location_ne,
}
use so_lab_project.Shm.Deleting.{delete_drone-fields, delete_drone-IsConsistent}
use so_lab_project.Dron.{Shared, DronInternalData, slot, relocate, entered, left, remove_self}
use so_lab_project.System.{inward, outward, Phase, idle, past, active, gone, Swarm, at}
use so_lab_project.System.Invariant.{Inv, allowed, reserved, own_view, live_slot, active-slot}
use so_lab_project.System.Slots.{slot-Inv}

pub past_inward :
    (l : Location) (r : Bool) → allowed l r (past inward) ≡ true → (l ≡ mission) × (r ≡ true)
past_inward l r h = ground arith

pub past_outward :
    (l : Location) (r : Bool) → allowed l r (past outward) ≡ true → (l ≡ base) × (r ≡ false)
past_outward l r h = ground arith

weight-reserved :
    (ph : Phase) (me : DronInternalData)
    → me.have_reserved_space ≡ true
    → reserved (active ph me) ≡ 1
weight-reserved ph me h = ground arith

weight-unreserved :
    (ph : Phase) (me : DronInternalData)
    → me.have_reserved_space ≡ false
    → reserved (active ph me) ≡ 0
weight-unreserved ph me h = ground arith

module _ (s : Swarm) (k : ℕ) (me : DronInternalData) (v : Inv s) where
  abbrev in_slot : Location → Shared
  in_slot l = (relocate s.shared (slot me) l).1

  pub arrives-Inv :
      get_elem? s.procs k ≡ some (active (past inward) me)
      → Inv (record (at s k (active idle (entered me))) { shared = in_slot base })
  unfolding relocate entered
  arrives-Inv h =
      let (x, stored, same, used, alone) = active-slot s v k (past inward) me h in
      let a = own_view s v k (active (past inward) me) h in
      let (l, r) = past_inward me.location me.have_reserved_space a.1 in
      let e = update-mission s.shared.all (slot me) base (a.0 ∙ l) in
      let stored' =
        ap (λ q. get_elem? q.1.drones (slot me)) e
        ∙ get_elem?-put_location_self s.shared.all.drones (slot me) base x stored in
      slot-Inv s k (active (past inward) me) (active idle (entered me)) (in_slot base) (slot me) v h
        (entered-IsConsistent s.shared.all s.shared.free v.consistent (slot me) x stored (same ∙ l))
        (ap (λ q. q.1.dron_reserving_space_count) e
          ∙ pos-down s.shared.all.dron_reserving_space_count
              (total reserved (set s.procs k (active idle (entered me))))
              (v.reservations
                ∙ ap pos (
                    omega (
                      arith,
                      total-set reserved s.procs k (active idle (entered me))
                          (active (past inward) me) h,
                      weight-reserved (past inward) me r,
                    ))))
        refl
        (λ j n.
          ap (λ q. get_elem? q.1.drones j) e
          ∙ get_elem?-put_location_ne s.shared.all.drones (slot me) j base n)
        (is_at_self (slot me) ∙ sym (ap live_slot stored')) (λ j n. refl)
        (alone ∙ sym (is_at_self (slot me))) (ap location_of stored', refl)

  pub departs-Inv :
      get_elem? s.procs k ≡ some (active (past outward) me)
      → Inv (record (at s k (active idle (left me))) { shared = in_slot mission })
  unfolding relocate left
  departs-Inv h =
      let (x, stored, same, used, alone) = active-slot s v k (past outward) me h in
      let a = own_view s v k (active (past outward) me) h in
      let (l, r) = past_outward me.location me.have_reserved_space a.1 in
      let e = update-base s.shared.all (slot me) mission (a.0 ∙ l) in
      let stored' =
        ap (λ q. get_elem? q.1.drones (slot me)) e
        ∙ get_elem?-put_location_self s.shared.all.drones (slot me) mission x stored in
      slot-Inv s k (active (past outward) me) (active idle (left me)) (in_slot mission) (slot me) v
        h (left-IsConsistent s.shared.all s.shared.free v.consistent (slot me) x stored (same ∙ l))
        (ap (λ q. q.1.dron_reserving_space_count) e
          ∙ v.reservations
          ∙ ap pos (
              omega (
                arith,
                total-set reserved s.procs k (active idle (left me)) (active (past outward) me) h,
              )))
        refl
        (λ j n.
          ap (λ q. get_elem? q.1.drones j) e
          ∙ get_elem?-put_location_ne s.shared.all.drones (slot me) j mission n)
        (is_at_self (slot me) ∙ sym (ap live_slot stored')) (λ j n. refl)
        (alone ∙ sym (is_at_self (slot me))) (ap location_of stored', refl)

  removed_reservations :
      get_elem? s.procs k ≡ some (active idle me)
      → (if me.have_reserved_space
          then s.shared.all.dron_reserving_space_count -ℤ pos 1
          else s.shared.all.dron_reserving_space_count)
        ≡ pos (total reserved (set s.procs k gone))
  removed_reservations h =
      let e = total-set reserved s.procs k gone (active idle me) h in
      elim (Bool-cases me.have_reserved_space) [
        | inl had ↦ rw had (
            pos-down s.shared.all.dron_reserving_space_count _
              (v.reservations ∙ ap pos (omega (arith, e, weight-reserved idle me had))))
        | inr none_yet ↦
            rw none_yet
              (v.reservations ∙ ap pos (omega (arith, e, weight-unreserved idle me none_yet)))
      ]

  pub removes-Inv :
      (reason : DestructionReason)
      → get_elem? s.procs k ≡ some (active idle me)
      → Inv (record (at s k gone) { shared = (remove_self s.shared me reason).1 })
  unfolding remove_self
  removes-Inv reason h =
      let (x, stored, same, used, alone) = active-slot s v k idle me h in
      let f =
        delete_drone-fields s.shared.all s.shared.free (slot me) me.have_reserved_space reason in
      let stored' =
        ap (λ l. get_elem? l (slot me)) f.4
        ∙ get_elem?-put_location_self s.shared.all.drones (slot me) undefine x stored in
      slot-Inv s k (active idle me) gone (remove_self s.shared me reason).1 (slot me) v h
        (delete_drone-IsConsistent s.shared.all s.shared.free v.consistent (slot me) x stored used
          me.have_reserved_space reason)
        (f.3 ∙ removed_reservations h) refl
        (λ j n.
          ap (λ l. get_elem? l j) f.4
          ∙ get_elem?-put_location_ne s.shared.all.drones (slot me) j undefine n)
        (sym (ap live_slot stored')) (λ j n. sym (is_at_ne j (slot me) (λ q. n (sym q))))
        (alone ∙ sym (is_at_self (slot me))) tt
