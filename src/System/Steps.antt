-- ===== src/System/Steps.antt =====
-- Steps with a critical section of a drone: each keeps the invariant.
use so_lab_project.Prelude.{
  ℕ, ◌≡◌, ◌≢◌, refl, sym, ap, ◌∙◌, ◌⊎◌, inl, inr, Bool, true, false, Option, none, some, pos, arith,
  get_elem?, total, total-set, is_at_self, is_at_ne, pos-up, get_elem?-set_self, get_elem?-set_ne,
}
use so_lab_project.Shm.{Location, undefine, base, mission, DronData, location_of}
use so_lab_project.Shm.Consistency.{live-one}
use so_lab_project.Dron.{Shared, DronInternalData, no_memory, placed, register, registered, reserve}
use so_lab_project.Dron.Registering.{register-no_memory, register-placed}
use so_lab_project.Dron.Reserving.{holding, reserve-true}
use so_lab_project.System.Local.{local-Inv}
use so_lab_project.System.{inward, idle, waiting, starting, active, gone, IsBorn, Swarm, at}
use so_lab_project.System.Invariant.{Inv, allowed, reserved, own_view, live_slot}
use so_lab_project.System.Slots.{retuned-Inv, slot-Inv}

pub out_of_memory-Inv :
    (s : Swarm) (k : ℕ) (x : DronData) (me : DronInternalData) (sh : Shared)
    → Inv s
    → get_elem? s.procs k ≡ some (starting x me)
    → register s.shared x ≡ no_memory sh
    → Inv (record (at s k gone) { shared = sh })
out_of_memory-Inv s k x me sh v h e = rw (register-no_memory s.shared sh x v.consistent e).1 (
    retuned-Inv s k (starting x me) gone _ _ v h
      (v.reservations ∙ ap pos (omega (arith, total-set reserved s.procs k gone (starting x me) h)))
      refl (λ i. refl) tt)

weight-had :
    (me : DronInternalData) → me.have_reserved_space ≡ false → reserved (active idle me) ≡ 0
weight-had me h = ground arith

pub born-defined : (x : DronData) (me : DronInternalData) → IsBorn x me → x.location ≢ undefine
born-defined x me (e, r, inl b) u = cc
born-defined x me (e, r, inr m) u = cc

pub born_places :
    (x : DronData) (me : DronInternalData)
    → IsBorn x me
    → (x.location ≡ base) ⊎ (x.location ≡ mission)
born_places x me (e, r, inl b) = inl (e ∙ b)
born_places x me (e, r, inr m) = inr (e ∙ m)

may_start :
    (l : Location) (r : Bool) → r ≡ false → (l ≡ base) ⊎ (l ≡ mission) → allowed l r idle ≡ true
may_start l r e h = ground arith

live_slot-undefine : (o : Option DronData) → location_of o ≡ undefine → live_slot o ≡ 0
live_slot-undefine none h = refl
live_slot-undefine (some x) h = ground arith

pub joins-Inv :
    (s : Swarm) (k : ℕ) (x : DronData) (me : DronInternalData) (i id : ℕ) (sh : Shared)
    → Inv s
    → get_elem? s.procs k ≡ some (starting x me)
    → register s.shared x ≡ placed i id sh
    → Inv (record (at s k (active idle (registered me i id))) { shared = sh })
unfolding registered
joins-Inv s k x me i id sh v h e =
    let a = own_view s v k (starting x me) h in
    let f = register-placed s.shared sh x i id v.consistent (born-defined x me a) e in
    let stored : get_elem? sh.all.drones i ≡ some x =
      ap (λ l. get_elem? l i) f.4
      ∙ get_elem?-set_self s.shared.all.drones i x (omega (arith, f.3, v.consistent.slots)) in
    slot-Inv s k (starting x me) (active idle (registered me i id)) sh i v h f.1
      (f.7
        ∙ v.reservations
        ∙ ap pos (
            omega (
              arith,
              total-set reserved s.procs k (active idle (registered me i id)) (starting x me) h,
              weight-had me a.1,
            )))
      refl (λ j n. ap (λ l. get_elem? l j) f.4 ∙ get_elem?-set_ne s.shared.all.drones i j x n)
      (is_at_self i ∙ sym (ap live_slot stored ∙ live-one x (born-defined x me a)))
      (λ j n. is_at_ne j i (λ q. n (sym q)))
      (v.owned i ∙ live_slot-undefine (get_elem? s.shared.all.drones i) f.2)
      (ap location_of stored ∙ a.0, may_start me.location me.have_reserved_space a.1 a.2)

-- With a reservation or without, a drone in its loop on a mission may wait for the way in.
may_return : (l : Location) → l ≡ mission → allowed l true (waiting inward) ≡ true
may_return l e = ground arith

pub reserves-Inv :
    (s : Swarm) (k : ℕ) (me me' : DronInternalData) (sh : Shared)
    → Inv s
    → get_elem? s.procs k ≡ some (active idle me)
    → me.location ≡ mission
    → reserve s.shared me ≡ (true, sh, me')
    → Inv (record (at s k (active (waiting inward) me')) { shared = sh })
reserves-Inv s k me me' sh v h l e =
    let a = own_view s v k (active idle me) h in
    elim (reserve-true s.shared sh me me' e) [
      | inl (had, same, same_me) ↦
          rw (same, same_me)
            (local-Inv s k (active idle me) (active (waiting inward) me) s.tokens v h refl refl
              (λ i. refl)
              (
                a.0,
                ap (λ r. allowed me.location r (waiting inward)) had ∙ may_return me.location l,
              ))
      | inr (none_yet, room, after, after_me) ↦
          rw (after, after_me)
            (retuned-Inv s k (active idle me) (active (waiting inward) (holding me))
              s.shared.all.next_dron_id _ v h
              (pos-up _ (total reserved s.procs) v.reservations
                ∙ ap pos (
                    omega (
                      arith,
                      total-set reserved s.procs k (active (waiting inward) (holding me))
                          (active idle me) h,
                      weight-had me none_yet,
                    )))
              refl (λ i. refl) (a.0, may_return me.location l))
    ]
