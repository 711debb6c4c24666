-- ===== src/Shm/Moving.antt =====
-- `SHM_AllDronesData_update_dron_location`: a drone enters or leaves the base.
use so_lab_project.Prelude.{
  false, ltb_ℤ, ◌+ℤ◌, ◌-ℤ◌, ℕ, suc, zero, ◌+◌, ◌≡◌, ◌≢◌, refl, sym, ap, ◌∙◌, subst, List, [], ◌∷◌,
  some, ℤ, pos, arith, ℕ_discrete, get_elem?, length, total, pos-up, pos-down,
}
use so_lab_project.Stack.{Stack}
use so_lab_project.Shm.{
  Location, base, mission, DronData, AllDronesData, location_at, location_of, put_location, recount,
  update_dron_location,
}
use so_lab_project.Shm.Consistency.{live, live_at, in_base, base_at, vacant, IsConsistent}

pub length-put_location :
    (xs : List DronData) (i : ℕ) (l : Location) → length (put_location xs i l) ≡ length xs
unfolding put_location
length-put_location [] i l = refl
length-put_location (x ∷ xs) zero l = refl
length-put_location (x ∷ xs) (suc i) l = ap suc (length-put_location xs i l)

pub get_elem?-put_location_self :
    (xs : List DronData) (i : ℕ) (l : Location) (x : DronData)
    → get_elem? xs i ≡ some x
    → get_elem? (put_location xs i l) i ≡ some (record x { location = l })
unfolding put_location
get_elem?-put_location_self [] i l x h = cc
get_elem?-put_location_self (y ∷ xs) zero l x h = ground arith
get_elem?-put_location_self (y ∷ xs) (suc i) l x h = get_elem?-put_location_self xs i l x h

pub get_elem?-put_location_ne :
    (xs : List DronData) (i j : ℕ) (l : Location)
    → i ≢ j
    → get_elem? (put_location xs i l) j ≡ get_elem? xs j
unfolding put_location
get_elem?-put_location_ne [] i j l h = refl
get_elem?-put_location_ne (x ∷ xs) zero zero l h = absurd (h refl)
get_elem?-put_location_ne (x ∷ xs) zero (suc j) l h = refl
get_elem?-put_location_ne (x ∷ xs) (suc i) zero l h = refl
get_elem?-put_location_ne (x ∷ xs) (suc i) (suc j) l h =
    get_elem?-put_location_ne xs i j l (λ e. h (ap suc e))

-- The call on a drone that was on a mission, and on one that was in the base.
pub update-mission :
    (d : AllDronesData) (i : ℕ) (l : Location)
    → location_at d i ≡ mission
    → update_dron_location d i l ≡ (
      ltb_ℤ (d.dron_reserving_space_count -ℤ pos 1) (pos 0),
      record d {
        dron_in_base_count = d.dron_in_base_count +ℤ pos 1;
        dron_reserving_space_count = d.dron_reserving_space_count -ℤ pos 1;
        drones = put_location d.drones i l;
      },
    )
unfolding update_dron_location
update-mission d i l e = rw (e, recount)

pub update-base :
    (d : AllDronesData) (i : ℕ) (l : Location)
    → location_at d i ≡ base
    → update_dron_location d i l ≡ (
      false,
      record d {
        dron_in_base_count = d.dron_in_base_count -ℤ pos 1;
        drones = put_location d.drones i l;
      },
    )
unfolding update_dron_location
update-base d i l e = rw (e, recount)

-- A weight that depends on the location only.
pub total-put_location :
    (w : Location → ℕ) (xs : List DronData) (i : ℕ) (l : Location) (x : DronData)
    → get_elem? xs i ≡ some x
    → total (λ y. w y.location) (put_location xs i l) + w x.location
      ≡ total (λ y. w y.location) xs + w l
unfolding put_location total
total-put_location w [] i l x h = cc
total-put_location w (y ∷ xs) zero l x h = ground arith
total-put_location w (y ∷ xs) (suc i) l x h = omega (arith, total-put_location w xs i l x h)

-- Moving between the base and a mission leaves the unused slots unused.
vacant-put_location :
    (xs : List DronData) (i j : ℕ) (l : Location) (x : DronData)
    → get_elem? xs i ≡ some x
    → live x ≡ live_at l
    → vacant (get_elem? (put_location xs i l) j) ≡ vacant (get_elem? xs j)
vacant-put_location xs i j l x h e = elim (ℕ_discrete i j) [
  | yes q ↦
      subst (λ k. vacant (get_elem? (put_location xs i l) k) ≡ vacant (get_elem? xs k)) q
        (rw (get_elem?-put_location_self xs i l x h, h) (ground arith))
  | no n ↦ ap vacant (get_elem?-put_location_ne xs i j l n)
]

module _ (d : AllDronesData) (free : Stack ℕ) (c : IsConsistent d free) (i : ℕ) (x : DronData)
    (slot : get_elem? d.drones i ≡ some x) where
  -- A new location for a slot in use, with any reservations and the matching count of the base.
  moved-IsConsistent :
      (l : Location) (b r : ℤ)
      → live x ≡ live_at l
      → b ≡ pos (total in_base (put_location d.drones i l))
      → IsConsistent
          (record d {
            dron_in_base_count = b;
            dron_reserving_space_count = r;
            drones = put_location d.drones i l;
          })
          free
  moved-IsConsistent l b r e based = record {
    slots = length-put_location d.drones i l ∙ c.slots;
    free_valid = c.free_valid;
    free_capacity = c.free_capacity;
    counted = c.counted ∙ ap pos (sym same);
    based = based;
    split = omega (arith, c.split, same);
    unused = λ j. c.unused j ∙ sym (vacant-put_location d.drones i j l x slot e);
  }
    where
      same : total live (put_location d.drones i l) ≡ total live d.drones
      same = omega (arith, total-put_location live_at d.drones i l x slot, e)

  -- On a consistent state `update_dron_location` of a drone on a mission to the base keeps the
  -- counters, the slots and the stack of free indices in agreement.
  pub entered-IsConsistent :
      x.location ≡ mission → IsConsistent (update_dron_location d i base).1 free
  unfolding update_dron_location
  entered-IsConsistent e =
      rw (there, recount)
        (moved-IsConsistent base _ _ (ground arith) (sym (rw more (sym (pos-up _ _ c.based)))))
    where
      there : location_at d i ≡ mission
      there = ap location_of slot ∙ e

      more : total in_base (put_location d.drones i base) ≡ total in_base d.drones + 1
      more = omega (arith, total-put_location base_at d.drones i base x slot, ap base_at e)

  -- On a consistent state `update_dron_location` of a drone in the base to a mission keeps the
  -- counters, the slots and the stack of free indices in agreement.
  pub left-IsConsistent : x.location ≡ base → IsConsistent (update_dron_location d i mission).1 free
  unfolding update_dron_location
  left-IsConsistent e =
      rw (there, recount)
        (moved-IsConsistent mission _ _ (ground arith) (pos-down _ _ (c.based ∙ ap pos (sym less))))
    where
      there : location_at d i ≡ base
      there = ap location_of slot ∙ e

      less : total in_base (put_location d.drones i mission) + 1 ≡ total in_base d.drones
      less = omega (arith, total-put_location base_at d.drones i mission x slot, ap base_at e)
