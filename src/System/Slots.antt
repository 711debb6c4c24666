-- ===== src/System/Slots.antt =====
-- Steps that change the counters, or one slot, of the shared memory.
use so_lab_project.Prelude.{
  ℕ, ◌≡◌, ◌≢◌, ap, Option, none, some, ℤ, pos, arith, ℕ_discrete, get_elem?, set, total, total-set,
  subst,
}
use so_lab_project.Shm.{location_of}
use so_lab_project.Shm.Consistency.{IsConsistent, retuned, retuned-IsConsistent}
use so_lab_project.Dron.{Shared}
use so_lab_project.System.{Proc, starting, active, gone, Swarm, at}
use so_lab_project.System.Invariant.{
  Inv, Agrees, AgreesAt, AgreesAt-set, AgreesAt-frame, reserved, holds_token, owns, live_slot,
}

-- The same shared memory with other values for the id, the limit and the reservations.
abbrev pub retune : Shared → ℕ → ℤ → ℤ → Shared
retune sh id m r = record sh { all = retuned sh.all id m r }

Agrees-retune :
    (sh : Shared) (id : ℕ) (m r : ℤ) (p : Proc) → Agrees sh.all p → Agrees (retune sh id m r).all p
Agrees-retune sh id m r (starting x me) h = h
Agrees-retune sh id m r (active ph me) h = h
Agrees-retune sh id m r gone h = h

AgreesAt-retune :
    (sh : Shared) (id : ℕ) (m r : ℤ) (o : Option Proc)
    → AgreesAt sh.all o
    → AgreesAt (retune sh id m r).all o
AgreesAt-retune sh id m r none h = h
AgreesAt-retune sh id m r (some p) h = Agrees-retune sh id m r p h

-- The operator changes the limit.
pub limit-Inv :
    (s : Swarm) (m : ℤ)
    → Inv s
    → Inv (record s {
      shared = retune s.shared s.shared.all.next_dron_id m s.shared.all.dron_reserving_space_count;
    })
limit-Inv s m v = record {
  consistent = retuned-IsConsistent s.shared.all s.shared.free _ _ _ v.consistent;
  reservations = v.reservations;
  gate = v.gate;
  owned = v.owned;
  agrees = λ k.
      AgreesAt-retune s.shared s.shared.all.next_dron_id m s.shared.all.dron_reserving_space_count
        (get_elem? s.procs k) (v.agrees k);
}

-- A process moves on and changes the number of reservations to fit.
pub retuned-Inv :
    (s : Swarm) (k : ℕ) (p p' : Proc) (id : ℕ) (r : ℤ)
    → Inv s
    → get_elem? s.procs k ≡ some p
    → r ≡ pos (total reserved (set s.procs k p'))
    → holds_token p' ≡ holds_token p
    → ((i : ℕ) → owns i p' ≡ owns i p)
    → Agrees s.shared.all p'
    → Inv (record (at s k p') {
      shared = retune s.shared id s.shared.all.maximum_dron_in_base_count r;
    })
retuned-Inv s k p p' id r v h e g o a = record {
  consistent = retuned-IsConsistent s.shared.all s.shared.free _ _ _ v.consistent;
  reservations = e;
  gate = omega (arith, v.gate, total-set holds_token s.procs k p' p h, g);
  owned = λ i. omega (arith, total-set (owns i) s.procs k p' p h, o i, v.owned i);
  agrees =
      let m : ℤ = s.shared.all.maximum_dron_in_base_count in
      AgreesAt-set (retune s.shared id m r).all s.procs k p p' h
        (Agrees-retune s.shared id m r p' a)
        (λ j _. AgreesAt-retune s.shared id m r (get_elem? s.procs j) (v.agrees j));
}

-- A process moves on, and slot `i`, which nobody else owns, changes with it.
pub slot-Inv :
    (s : Swarm) (k : ℕ) (p p' : Proc) (sh : Shared) (i : ℕ)
    → Inv s
    → get_elem? s.procs k ≡ some p
    → IsConsistent sh.all sh.free
    → sh.all.dron_reserving_space_count ≡ pos (total reserved (set s.procs k p'))
    → holds_token p' ≡ holds_token p
    → ((j : ℕ) → i ≢ j → get_elem? sh.all.drones j ≡ get_elem? s.shared.all.drones j)
    → owns i p' ≡ live_slot (get_elem? sh.all.drones i)
    → ((j : ℕ) → i ≢ j → owns j p' ≡ owns j p)
    → total (owns i) s.procs ≡ owns i p
    → Agrees sh.all p'
    → Inv (record (at s k p') { shared = sh })
slot-Inv s k p p' sh i v h c r g same own others alone a = record {
  consistent = c;
  reservations = r;
  gate = omega (arith, v.gate, total-set holds_token s.procs k p' p h, g);
  owned = λ j. elim (ℕ_discrete i j) [
    | yes e ↦
        subst (λ m. total (owns m) (set s.procs k p') ≡ live_slot (get_elem? sh.all.drones m)) e
          (omega (arith, total-set (owns i) s.procs k p' p h, own, alone))
    | no n ↦
        rw (same j n) (omega (arith, total-set (owns j) s.procs k p' p h, others j n, v.owned j))
  ];
  agrees = AgreesAt-set sh.all s.procs k p p' h a λ j ne.
      AgreesAt-frame s.shared.all sh.all i k j s.procs p (λ m n. ap location_of (same m n)) h alone
        ne (v.agrees j);
}
