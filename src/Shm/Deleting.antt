-- ===== src/Shm/Deleting.antt =====
-- `SHM_AllDronesData_delete_drone`: a slot in use is given back.
use so_lab_project.Prelude.{
  false, ltb_ℤ, ℕ, ◌+◌, ◌<◌, ◌≡◌, ◌≢◌, refl, sym, ap, ◌∙◌, subst, Bool, some, pos, arith,
  ℕ_discrete, get_elem?, length, total, count, is_at, is_at_self, is_at_ne, pos-down, ◌-ℤ◌,
  if◌then◌else◌,
}
use so_lab_project.Stack.{Stack, contents, push_elem}
use so_lab_project.Stack.Laws.{push_elem-room}
use so_lab_project.Shm.{
  undefine, is_base, DronData, AllDronesData, DestructionReason, out_of_power, decommissioned,
  suicide, other, location_at, location_of, put_location, count_loss, release_base,
  release_reservation, index_or_error, delete_drone,
}
use so_lab_project.Shm.Consistency.{
  live, live_at, in_base, base_at, vacant, IsConsistent, live-one, count-snoc,
}
use so_lab_project.Shm.Moving.{
  length-put_location, get_elem?-put_location_self, get_elem?-put_location_ne, total-put_location,
}

-- How each field comes out, whatever the reason.
pub delete_drone-fields :
    (d : AllDronesData) (free : Stack ℕ) (i : ℕ) (r : Bool) (reason : DestructionReason)
    → let d' = (delete_drone d free i r reason).2 in
      (d'.capacity ≡ d.capacity)
      × (d'.dron_count ≡ d.dron_count -ℤ pos 1)
      × (d'.dron_in_base_count ≡ (
          if is_base (location_at d i)
          then d.dron_in_base_count -ℤ pos 1
          else d.dron_in_base_count))
      × (d'.dron_reserving_space_count
          ≡ (if r then d.dron_reserving_space_count -ℤ pos 1 else d.dron_reserving_space_count))
      × (d'.drones ≡ put_location d.drones i undefine)
      × (d'.maximum_dron_in_base_count ≡ d.maximum_dron_in_base_count)
unfolding delete_drone count_loss release_base release_reservation
delete_drone-fields d free i r out_of_power = ground arith
delete_drone-fields d free i r decommissioned = ground arith
delete_drone-fields d free i r suicide = ground arith
delete_drone-fields d free i r other = ground arith

pub delete_drone-warning :
    (d : AllDronesData) (free : Stack ℕ) (i : ℕ) (r : Bool) (reason : DestructionReason)
    → (delete_drone d free i r reason).1
      ≡ (if r then ltb_ℤ (d.dron_reserving_space_count -ℤ pos 1) (pos 0) else false)
unfolding delete_drone count_loss release_base release_reservation
delete_drone-warning d free i r out_of_power = ground arith
delete_drone-warning d free i r decommissioned = ground arith
delete_drone-warning d free i r suicide = ground arith
delete_drone-warning d free i r other = ground arith

pub delete_drone-free :
    (d : AllDronesData) (free : Stack ℕ) (i : ℕ) (r : Bool) (reason : DestructionReason)
    → ((delete_drone d free i r reason).0 ≡ index_or_error i (push_elem free i).0)
      × ((delete_drone d free i r reason).3 ≡ (push_elem free i).1)
unfolding delete_drone
delete_drone-free d free i r reason = (refl, refl)

module _ (d : AllDronesData) (free : Stack ℕ) (c : IsConsistent d free) (i : ℕ) (x : DronData)
    (slot : get_elem? d.drones i ≡ some x) (used : x.location ≢ undefine) where
  fewer_live : total live (put_location d.drones i undefine) + 1 ≡ total live d.drones
  fewer_live = omega (arith, total-put_location live_at d.drones i undefine x slot, live-one x used)

  push_room : free.size < free.capacity
  push_room = omega (arith, c.split, c.free_capacity, fewer_live)

  deleted-unused :
      (j : ℕ)
      → count j (contents (push_elem free i).1)
        ≡ vacant (get_elem? (put_location d.drones i undefine) j)
  deleted-unused j = elim (ℕ_discrete i j) [
    | yes e ↦
        subst
          (λ k.
            count k (contents (push_elem free i).1)
            ≡ vacant (get_elem? (put_location d.drones i undefine) k))
          e own
    | no n ↦
        rw (get_elem?-put_location_ne d.drones i j undefine n)
          (omega (arith, counts j, c.unused j, is_at_ne j i (λ e. n (sym e))))
  ]
    where
      counts :
          (k : ℕ) → count k (contents (push_elem free i).1) ≡ count k (contents free) + is_at k i
      counts k =
          ap (count k) (push_elem-room free i c.free_valid push_room).1
          ∙ count-snoc k (contents free) i

      before : vacant (get_elem? d.drones i) ≡ 0
      before = ground (arith, slot, used)

      own :
          count i (contents (push_elem free i).1)
          ≡ vacant (get_elem? (put_location d.drones i undefine) i)
      own =
          rw (get_elem?-put_location_self d.drones i undefine x slot)
            (omega (arith, counts i, c.unused i, is_at_self i, before))

  -- On a consistent state the deletion of a drone that stands in slot `i` cannot fail: the stack has
  -- room for the index, which is returned.
  pub delete_drone-succeeds :
      (r : Bool) (reason : DestructionReason) → (delete_drone d free i r reason).0 ≡ some i
  unfolding index_or_error
  delete_drone-succeeds r reason =
      (delete_drone-free d free i r reason).0
      ∙ ap (index_or_error i) (push_elem-room free i c.free_valid push_room).0

  deleted-based :
      (if is_base (location_at d i) then d.dron_in_base_count -ℤ pos 1 else d.dron_in_base_count)
      ≡ pos (total in_base (put_location d.drones i undefine))
  deleted-based = rw (ap location_of slot) (
      ground (
        arith,
        c.based,
        total-put_location base_at d.drones i undefine x slot,
        pos-down d.dron_in_base_count (total in_base (put_location d.drones i undefine)),
      ))

  -- On a consistent state the deletion of a drone that stands in slot `i`, with or without a
  -- reservation and for any reason, keeps the counters, the slots and the stack of free indices in
  -- agreement.
  pub delete_drone-IsConsistent :
      (r : Bool) (reason : DestructionReason)
      → let (k, warned, d', free') = delete_drone d free i r reason in IsConsistent d' free'
  delete_drone-IsConsistent r reason =
      let f = delete_drone-fields d free i r reason in
      rw (delete_drone-free d free i r reason).1 (record {
        slots = ap length f.4 ∙ length-put_location d.drones i undefine ∙ c.slots ∙ sym f.0;
        free_valid = (push_elem-room free i c.free_valid push_room).2;
        free_capacity =
            (push_elem-room free i c.free_valid push_room).3 ∙ c.free_capacity ∙ sym f.0;
        counted =
            f.1
            ∙ pos-down _ _ (c.counted ∙ ap pos (sym fewer_live))
            ∙ ap (λ l. pos (total live l)) (sym f.4);
        based = f.2 ∙ deleted-based ∙ ap (λ l. pos (total in_base l)) (sym f.4);
        split = omega (
          arith,
          c.split,
          fewer_live,
          (push_elem-room free i c.free_valid push_room).4,
          ap (λ l. total live l) f.4,
          f.0,
        );
        unused = λ j. deleted-unused j ∙ ap (λ l. vacant (get_elem? l j)) (sym f.4);
      })
