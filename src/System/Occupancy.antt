-- ===== src/System/Occupancy.antt =====
-- The limit of drones in the base, and the warnings about negative reservations.
use so_lab_project.Prelude.{
  ℕ, ◌<◌, ◌≡◌, List, refl, ap, ◌∙◌, ◌⊎◌, inl, inr, Bool, true, false, ◌||◌, some, ℤ, pos, arith,
  get_elem?, total, weight-le-total, ◌+ℤ◌, ◌-ℤ◌, ◌≤ℤ◌, ltb_ℤ, ltb→lt, int_laws, if◌then◌else◌,
}
use so_lab_project.Shm.{
  Location, DronData, base, mission, is_base, is_mission, AllDronesData, DestructionReason,
  location_at,
}
use so_lab_project.Shm.Moving.{update-mission, update-base}
use so_lab_project.Shm.Deleting.{delete_drone-fields, delete_drone-warning}
use so_lab_project.Dron.{
  Shared, DronInternalData, slot, has_room, occupancy, reserve, relocate, remove_self,
}
use so_lab_project.Dron.Registering.{register-no_memory, register-placed}
use so_lab_project.Dron.Reserving.{reserve-true}
use so_lab_project.Operator.{raise_limit, lower_limit}
use so_lab_project.Stack.{Stack}
use so_lab_project.Setup.{Settings}
use so_lab_project.System.Safety.{IsFresh, Runs, Runs-Inv}
use so_lab_project.System.{
  Swarm, Step, Phase, starting, active, idle, past, inward, outward, forks, refused, out_of_memory,
  joins, reserves, turns, gives_up, enters_gate, leaves_gate, arrives, departs, removes, stops,
  raises, lowers,
}
use so_lab_project.System.Invariant.{Inv, reserved, own_view}
use so_lab_project.System.Steps.{born-defined, born_places}
use so_lab_project.System.Moves.{past_inward, past_outward}

-- Occupancy does not grow, or it stays within the limit.
abbrev pub KeepsLimit : AllDronesData → AllDronesData → Type 0
KeepsLimit d d' = (occupancy d' ≤ℤ occupancy d) ⊎ (occupancy d' ≤ℤ d'.maximum_dron_in_base_count)

has_room-lt :
    (d : AllDronesData) → has_room d ≡ true → occupancy d +ℤ pos 1 ≤ℤ d.maximum_dron_in_base_count
has_room-lt d h = omega (int_laws, ltb→lt _ _ h)

-- One more in the base, or one more reservation, while there was room.
one_more-base :
    (d d' : AllDronesData)
    → has_room d ≡ true
    → d'.dron_in_base_count ≡ d.dron_in_base_count +ℤ pos 1
    → d'.dron_reserving_space_count ≡ d.dron_reserving_space_count
    → d'.maximum_dron_in_base_count ≡ d.maximum_dron_in_base_count
    → KeepsLimit d d'
one_more-base d d' h b r m = rw (b, r, m) (inr (omega (int_laws, has_room-lt d h)))

same_counts :
    (d d' : AllDronesData)
    → d'.dron_in_base_count ≡ d.dron_in_base_count
    → d'.dron_reserving_space_count ≡ d.dron_reserving_space_count
    → KeepsLimit d d'
same_counts d d' b r = rw (b, r) (inl (omega arith))

room_needed : (b : Bool) (l : Location) → (b || is_mission l) ≡ true → l ≡ base → b ≡ true
room_needed b l h e = ground arith

joins-KeepsLimit :
    (d d' : AllDronesData) (l : Location)
    → (has_room d || is_mission l) ≡ true
    → (l ≡ base) ⊎ (l ≡ mission)
    → d'.dron_in_base_count
      ≡ (if is_base l then d.dron_in_base_count +ℤ pos 1 else d.dron_in_base_count)
    → d'.dron_reserving_space_count ≡ d.dron_reserving_space_count
    → d'.maximum_dron_in_base_count ≡ d.maximum_dron_in_base_count
    → KeepsLimit d d'
joins-KeepsLimit d d' l h (inl e) b r m =
    one_more-base d d' (room_needed (has_room d) l h e) (b ∙ rw e) r m
joins-KeepsLimit d d' l h (inr e) b r m = same_counts d d' (b ∙ rw e) r

-- Entering the base turns a reservation into a place there.
arrives_counts :
    (d : AllDronesData)
    → occupancy (record d {
      dron_in_base_count = d.dron_in_base_count +ℤ pos 1;
      dron_reserving_space_count = d.dron_reserving_space_count -ℤ pos 1;
    })
      ≤ℤ occupancy d
arrives_counts d = omega int_laws

departs_counts :
    (d : AllDronesData)
    → occupancy (record d { dron_in_base_count = d.dron_in_base_count -ℤ pos 1 }) ≤ℤ occupancy d
departs_counts d = omega int_laws

reserves-KeepsLimit :
    (sh sh' : Shared) (me me' : DronInternalData)
    → reserve sh me ≡ (true, sh', me')
    → KeepsLimit sh.all sh'.all
reserves-KeepsLimit sh sh' me me' e = elim (reserve-true sh sh' me me' e) [
  | inl (had, same, same_me) ↦ rw same (inl (omega arith))
  | inr (none_yet, room, after, after_me) ↦
      rw after (inr (omega (int_laws, has_room-lt sh.all room)))
]

removes-KeepsLimit :
    (sh : Shared) (me : DronInternalData) (reason : DestructionReason)
    → KeepsLimit sh.all (remove_self sh me reason).1.all
unfolding remove_self
removes-KeepsLimit sh me reason =
    let f = delete_drone-fields sh.all sh.free (slot me) me.have_reserved_space reason in
    inl (rw (f.2, f.3) (fewer (is_base (location_at sh.all (slot me))) me.have_reserved_space))
  where
    fewer :
        (b r : Bool)
        → (if b then sh.all.dron_in_base_count -ℤ pos 1 else sh.all.dron_in_base_count)
            +ℤ (if r
                then sh.all.dron_reserving_space_count -ℤ pos 1
                else sh.all.dron_reserving_space_count)
          ≤ℤ occupancy sh.all
    fewer true true = omega int_laws
    fewer true false = omega int_laws
    fewer false true = omega int_laws
    fewer false false = omega int_laws

occupancy_limited :
    {n : ℕ} {s t : Swarm}
    → Inv s
    → Step n s t
    → (occupancy t.shared.all ≤ℤ occupancy s.shared.all)
      ⊎ (occupancy t.shared.all ≤ℤ t.shared.all.maximum_dron_in_base_count)
occupancy_limited v (forks x me b) = inl (omega arith)
occupancy_limited v (refused k x me h e) = inl (omega arith)
occupancy_limited {s = s} v (out_of_memory k x me sh h e) =
    rw (register-no_memory s.shared sh x v.consistent e).1 (inl (omega arith))
occupancy_limited {s = s} v (joins k x me i id sh h e) =
    let a = own_view s v k (starting x me) h in
    let f = register-placed s.shared sh x i id v.consistent (born-defined x me a) e in
    joins-KeepsLimit s.shared.all sh.all x.location f.0 (born_places x me a) f.5 f.7 f.6
occupancy_limited {s = s} v (reserves k me me' sh h l c e) =
    reserves-KeepsLimit s.shared sh me me' e
occupancy_limited v (turns k me h l) = inl (omega arith)
occupancy_limited v (gives_up k me to h) = inl (omega arith)
occupancy_limited v (enters_gate k me to h t) = inl (omega arith)
occupancy_limited v (leaves_gate k me to h) = inl (omega arith)
occupancy_limited {s = s} v (arrives k me h) =
    let a = own_view s v k (active (past inward) me) h in
    let l = (past_inward me.location me.have_reserved_space a.1).0 in
    inl (
      unfold relocate in
      rw (update-mission s.shared.all (slot me) base (a.0 ∙ l)) (arrives_counts s.shared.all))
occupancy_limited {s = s} v (departs k me h) =
    let a = own_view s v k (active (past outward) me) h in
    let l = (past_outward me.location me.have_reserved_space a.1).0 in
    inl (
      unfold relocate in
      rw (update-base s.shared.all (slot me) mission (a.0 ∙ l)) (departs_counts s.shared.all))
occupancy_limited {s = s} v (removes k me reason h) = removes-KeepsLimit s.shared me reason
occupancy_limited v (stops k me h) = inl (omega arith)
occupancy_limited v raises = inl (unfold raise_limit in omega arith)
occupancy_limited v lowers = inl (unfold lower_limit in omega arith)

quiet : (r b : Bool) → (r ≡ true → b ≡ false) → (if r then b else false) ≡ false
quiet true b h = h refl
quiet false b h = refl

-- A step that would print "Reserve space is negative!" next.
pub data Warns (t : Swarm) : Type 0 where
  arriving :
      (k : ℕ) (me : DronInternalData)
      → get_elem? t.procs k ≡ some (active (past inward) me)
      → (relocate t.shared (slot me) base).0 ≡ true
      → Warns t
  departing :
      (k : ℕ) (me : DronInternalData)
      → get_elem? t.procs k ≡ some (active (past outward) me)
      → (relocate t.shared (slot me) mission).0 ≡ true
      → Warns t
  removing :
      (k : ℕ) (me : DronInternalData) (reason : DestructionReason)
      → get_elem? t.procs k ≡ some (active idle me)
      → (remove_self t.shared me reason).0 ≡ true
      → Warns t

no_debt : (a : ℤ) (n : ℕ) → a ≡ pos n → 0 < n → ltb_ℤ (a -ℤ pos 1) (pos 0) ≡ false
unfolding ◌-ℤ◌
no_debt a n e h = ground arith

some_reservation :
    (s : Swarm) (k : ℕ) (ph : Phase) (me : DronInternalData)
    → Inv s
    → get_elem? s.procs k ≡ some (active ph me)
    → me.have_reserved_space ≡ true
    → ltb_ℤ (s.shared.all.dron_reserving_space_count -ℤ pos 1) (pos 0) ≡ false
some_reservation s k ph me v h r =
    no_debt _ (total reserved s.procs) v.reservations
      (omega (arith, weight-le-total reserved s.procs k (active ph me) h, counts))
  where
    counts : reserved (active ph me) ≡ 1
    counts = ground arith

module _ (s : Settings) (block : List DronData) (st : Stack ℕ) (f : IsFresh s block st) (t : Swarm)
    (r : Runs s block st t) where
  -- Along every run no step takes the places in the base that are used or reserved beyond the
  -- limit: their number does not grow, or stays within the limit. (It may stand above the limit
  -- after the operator has lowered it; then it does not grow.)
  pub limit_respected :
      (u : Swarm)
      → Step s.cfg.starting_drones_count t u
      → (occupancy u.shared.all ≤ℤ occupancy t.shared.all)
        ⊎ (occupancy u.shared.all ≤ℤ u.shared.all.maximum_dron_in_base_count)
  limit_respected u step = occupancy_limited (Runs-Inv f r) step

  -- Along every run the message "Reserve space is negative!" is never printed: not by a drone that
  -- enters or leaves the base, nor by one that is taken out, for whatever reason.
  pub never-Warns : ¬ Warns t
  unfolding relocate remove_self
  never-Warns (arriving k me h w) =
      let a = own_view t (Runs-Inv f r) k (active (past inward) me) h in
      let (l, had) = past_inward me.location me.have_reserved_space a.1 in
      cc (
        w,
        ap (λ q. q.0) (update-mission t.shared.all (slot me) base (a.0 ∙ l)),
        some_reservation t k (past inward) me (Runs-Inv f r) h had,
      )
  never-Warns (departing k me h w) =
      let a = own_view t (Runs-Inv f r) k (active (past outward) me) h in
      let (l, none_left) = past_outward me.location me.have_reserved_space a.1 in
      cc (w, ap (λ q. q.0) (update-base t.shared.all (slot me) mission (a.0 ∙ l)))
  never-Warns (removing k me reason h w) =
      let e =
        delete_drone-warning t.shared.all t.shared.free (slot me) me.have_reserved_space reason in
      cc (w, e ∙ quiet me.have_reserved_space _ (some_reservation t k idle me (Runs-Inv f r) h))
