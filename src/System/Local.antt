-- ===== src/System/Local.antt =====
-- Steps that leave the shared memory alone.
use so_lab_project.Prelude.{
  ℕ, zero, suc, ◌+◌, ◌-◌, ◌<◌, ◌≡◌, refl, ap, ◌∙◌, Bool, true, List, [], ◌∷◌, ◌++◌, some, pos,
  arith, get_elem?, total-set, total-snoc,
}
use so_lab_project.Shm.{Location, base, DronData, AllDronesData}
use so_lab_project.Dron.{DronInternalData}
use so_lab_project.System.{
  Direction, outward, idle, waiting, inside, past, stopped, Proc, starting, active, gone, IsBorn,
  Swarm, at,
}
use so_lab_project.System.Invariant.{
  Inv, allowed, AgreesAt, Agrees, AgreesAt-set, reserved, holds_token, owns, own_view,
}

-- How a drone's phase may change with its location and reservation fixed.
may_stop : (l : Location) (r : Bool) → allowed l r idle ≡ true → allowed l r stopped ≡ true
may_stop l r h = ground arith

may_turn :
    (l : Location) (r : Bool)
    → l ≡ base
    → allowed l r idle ≡ true
    → allowed l r (waiting outward) ≡ true
may_turn l r e h = ground arith

may_give_up :
    (l : Location) (r : Bool) (to : Direction)
    → allowed l r (waiting to) ≡ true
    → allowed l r idle ≡ true
may_give_up l r to h = ground arith

may_enter :
    (l : Location) (r : Bool) (to : Direction)
    → allowed l r (waiting to) ≡ true
    → allowed l r (inside to) ≡ true
may_enter l r to h = ground arith

may_pass :
    (l : Location) (r : Bool) (to : Direction)
    → allowed l r (inside to) ≡ true
    → allowed l r (past to) ≡ true
may_pass l r to h = ground arith

-- One process moves on: it keeps its reservation and its slot, and the tokens balance.
pub local-Inv :
    (s : Swarm) (k : ℕ) (p p' : Proc) (t : ℕ)
    → Inv s
    → get_elem? s.procs k ≡ some p
    → reserved p' ≡ reserved p
    → t + holds_token p' ≡ s.tokens + holds_token p
    → ((i : ℕ) → owns i p' ≡ owns i p)
    → Agrees s.shared.all p'
    → Inv (record (at s k p') { tokens = t })
local-Inv s k p p' t v h r g o a = record {
  consistent = v.consistent;
  reservations = v.reservations ∙ ap pos (omega (arith, total-set reserved s.procs k p' p h, r));
  gate = omega (arith, v.gate, total-set holds_token s.procs k p' p h, g);
  owned = λ i. omega (arith, total-set (owns i) s.procs k p' p h, o i, v.owned i);
  agrees = AgreesAt-set s.shared.all s.procs k p p' h a (λ j _. v.agrees j);
}

AgreesAt-snoc :
    (d : AllDronesData) (ps : List Proc) (p : Proc)
    → Agrees d p
    → ((j : ℕ) → AgreesAt d (get_elem? ps j))
    → (j : ℕ) → AgreesAt d (get_elem? (ps ++ p ∷ []) j)
AgreesAt-snoc d [] p a h zero = a
AgreesAt-snoc d [] p a h (suc j) = tt
AgreesAt-snoc d (q ∷ ps) p a h zero = h 0
AgreesAt-snoc d (q ∷ ps) p a h (suc j) = AgreesAt-snoc d ps p a (λ i. h (suc i)) j

pub forks-Inv :
    (s : Swarm) (x : DronData) (me : DronInternalData)
    → Inv s
    → IsBorn x me
    → Inv (record s { procs = s.procs ++ starting x me ∷ [] })
forks-Inv s x me v b = record {
  consistent = v.consistent;
  reservations =
      v.reservations ∙ ap pos (omega (arith, total-snoc reserved s.procs (starting x me)));
  gate = omega (arith, v.gate, total-snoc holds_token s.procs (starting x me));
  owned = λ i. omega (arith, total-snoc (owns i) s.procs (starting x me), v.owned i);
  agrees = AgreesAt-snoc s.shared.all s.procs (starting x me) b v.agrees;
}

pub refused-Inv :
    (s : Swarm) (k : ℕ) (x : DronData) (me : DronInternalData)
    → Inv s
    → get_elem? s.procs k ≡ some (starting x me)
    → Inv (at s k gone)
refused-Inv s k x me v h = local-Inv s k (starting x me) gone s.tokens v h refl refl (λ i. refl) tt

-- From its loop a drone stops, or turns to the gate from the base.
pub stops-Inv :
    (s : Swarm) (k : ℕ) (me : DronInternalData)
    → Inv s
    → get_elem? s.procs k ≡ some (active idle me)
    → Inv (at s k (active stopped me))
stops-Inv s k me v h =
    let a = own_view s v k (active idle me) h in
    local-Inv s k (active idle me) (active stopped me) s.tokens v h refl refl (λ i. refl)
      (a.0, may_stop me.location me.have_reserved_space a.1)

pub turns-Inv :
    (s : Swarm) (k : ℕ) (me : DronInternalData)
    → Inv s
    → get_elem? s.procs k ≡ some (active idle me)
    → me.location ≡ base
    → Inv (at s k (active (waiting outward) me))
turns-Inv s k me v h e =
    let a = own_view s v k (active idle me) h in
    local-Inv s k (active idle me) (active (waiting outward) me) s.tokens v h refl refl (λ i. refl)
      (a.0, may_turn me.location me.have_reserved_space e a.1)

module _ (s : Swarm) (k : ℕ) (me : DronInternalData) (to : Direction) (v : Inv s) where
  pub gives_up-Inv :
      get_elem? s.procs k ≡ some (active (waiting to) me) → Inv (at s k (active idle me))
  gives_up-Inv h =
      let a = own_view s v k (active (waiting to) me) h in
      local-Inv s k (active (waiting to) me) (active idle me) s.tokens v h refl refl (λ i. refl)
        (a.0, may_give_up me.location me.have_reserved_space to a.1)

  pub enters_gate-Inv :
      get_elem? s.procs k ≡ some (active (waiting to) me)
      → 0 < s.tokens
      → Inv (record (at s k (active (inside to) me)) { tokens = s.tokens - 1 })
  enters_gate-Inv h t =
      let a = own_view s v k (active (waiting to) me) h in
      local-Inv s k (active (waiting to) me) (active (inside to) me) (s.tokens - 1) v h refl
        (omega arith) (λ i. refl) (a.0, may_enter me.location me.have_reserved_space to a.1)

  pub leaves_gate-Inv :
      get_elem? s.procs k ≡ some (active (inside to) me)
      → Inv (record (at s k (active (past to) me)) { tokens = s.tokens + 1 })
  leaves_gate-Inv h =
      let a = own_view s v k (active (inside to) me) h in
      local-Inv s k (active (inside to) me) (active (past to) me) (s.tokens + 1) v h refl
        (omega arith) (λ i. refl) (a.0, may_pass me.location me.have_reserved_space to a.1)
