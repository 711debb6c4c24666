-- ===== src/Shm/Adding.antt =====
-- `SHM_AllDronesData_add_dron`: a drone gets an unused slot, or there is none left.
use so_lab_project.Prelude.{
  ℕ, ◌+◌, ◌<◌, ◌≡◌, ◌≢◌, refl, sym, ap, ◌∙◌, ◌⊎◌, inl, inr, none, some, pos, arith, get_elem?, set,
  length-set, get_elem?-set_self, get_elem?-set_ne, get_elem?-lt, total, total-set, ◌+ℤ◌,
  if◌then◌else◌, ℕ_discrete, count, is_at, pos-up, subst, is_at_self, is_at_ne, dec_lt,
}
use so_lab_project.Stack.{Stack, Status, success, contents, pop_elem}
use so_lab_project.Stack.Laws.{pop_elem-some, pop_elem-empty}
use so_lab_project.Shm.{undefine, is_base, DronData, AllDronesData, location_at, add_at, add_dron}
use so_lab_project.Shm.Consistency.{
  live, in_base, vacant, IsConsistent, vacant-pos, vacant-live, live-one, count-snoc,
}

-- An index on top of the stack names a slot that is not in use.
module _ (d : AllDronesData) (free : Stack ℕ) (c : IsConsistent d free) (room : 0 < free.size) where
  abbrev popped_index : ℕ
  popped_index = (pop_elem free 0).1

  abbrev rest : Stack ℕ
  rest = (pop_elem free 0).2

  popped : pop_elem free 0 ≡ (success, popped_index, rest)
  popped = ap (λ (st : Status). (st, popped_index, rest)) (pop_elem-some free 0 c.free_valid room).0

  count-rest : (i : ℕ) → count i (contents free) ≡ count i (contents rest) + is_at i popped_index
  count-rest i =
      ap (count i) (pop_elem-some free 0 c.free_valid room).1
      ∙ count-snoc i (contents rest) popped_index

  top_slot : (x : DronData) × (get_elem? d.drones popped_index ≡ some x) × (x.location ≡ undefine)
  top_slot =
      vacant-pos (get_elem? d.drones popped_index)
        (omega (arith, c.unused popped_index, count-rest popped_index, is_at_self popped_index))

  -- Filling that slot.
  module _ (x : DronData) (used : live x ≡ 1) where
    added_total :
        (w : DronData → ℕ)
        → w top_slot.0 ≡ 0
        → total w (set d.drones popped_index x) ≡ total w d.drones + w x
    added_total w free_weight =
        omega (arith, total-set w d.drones popped_index x top_slot.0 top_slot.1, free_weight)

    added-unused :
        (i : ℕ) → count i (contents rest) ≡ vacant (get_elem? (set d.drones popped_index x) i)
    added-unused i = elim (ℕ_discrete popped_index i) [
      | yes e ↦
          subst (λ j. count j (contents rest) ≡ vacant (get_elem? (set d.drones popped_index x) j))
            e own
      | no n ↦
          rw (get_elem?-set_ne d.drones popped_index i x n)
            (omega (arith, count-rest i, c.unused i, is_at_ne i popped_index (λ e. n (sym e))))
    ]
      where
        before : vacant (get_elem? d.drones popped_index) ≡ 1
        before = ground (arith, top_slot.1, top_slot.2)

        own :
            count popped_index (contents rest)
            ≡ vacant (get_elem? (set d.drones popped_index x) popped_index)
        own =
            rw
              (get_elem?-set_self d.drones popped_index x
                (get_elem?-lt d.drones popped_index top_slot.0 top_slot.1))
              (omega (
                arith,
                c.unused popped_index,
                count-rest popped_index,
                is_at_self popped_index,
                vacant-live x,
                used,
                before,
              ))

    added-based :
        (if is_base x.location then d.dron_in_base_count +ℤ pos 1 else d.dron_in_base_count)
        ≡ pos (total in_base (set d.drones popped_index x))
    added-based =
        rw (added_total in_base (ground (arith, top_slot.2)))
          (ground (arith, c.based, pos-up d.dron_in_base_count (total in_base d.drones)))

    added-IsConsistent : IsConsistent (add_at d x (success, popped_index, rest)).1 rest
    unfolding add_at
    added-IsConsistent = record {
      slots = length-set d.drones popped_index x ∙ c.slots;
      free_valid = (pop_elem-some free 0 c.free_valid room).3;
      free_capacity = (pop_elem-some free 0 c.free_valid room).4 ∙ c.free_capacity;
      counted = rw (added_total live (ground (arith, top_slot.2)), used) (pos-up _ _ c.counted);
      based = added-based;
      split = omega (
        arith,
        c.split,
        (pop_elem-some free 0 c.free_valid room).5,
        added_total live (ground (arith, top_slot.2)),
      );
      unused = added-unused;
    }

-- Adding a drone whose location is not `LOCATION_UNDEFINE` keeps the counters, the slots and the
-- stack of free indices in agreement, whether or not a slot is left.
pub add_dron-IsConsistent :
    (d : AllDronesData) (free : Stack ℕ) (x : DronData)
    → IsConsistent d free
    → x.location ≢ undefine
    → let (i, d', free') = add_dron d free x in IsConsistent d' free'
unfolding add_dron
add_dron-IsConsistent d free x c used = elim (dec_lt 0 free.size) [
  | yes room ↦ rw (popped d free c room) (added-IsConsistent d free c room x (live-one x used))
  | no none_left ↦ rw (pop_elem-empty free 0 (omega arith)) c
]

-- On a consistent state `add_dron` fails, and then changes nothing, when every slot is in use;
-- otherwise it returns the index of an unused slot, writes the drone there and nowhere else, counts
-- it (in the base too, if it is there), and leaves the limit, the reservations and the next id as
-- they were.
pub add_dron_outcome :
    (d : AllDronesData) (free : Stack ℕ) (x : DronData)
    → IsConsistent d free
    → (d.dron_count ≡ pos d.capacity) × (add_dron d free x ≡ (none, d, free))
      ⊎ ((i : ℕ) × (d' : AllDronesData) × (free' : Stack ℕ) × (add_dron d free x
            ≡ (some i, d', free'))
          × (location_at d i ≡ undefine)
          × (i < d.capacity)
          × (d'.drones ≡ set d.drones i x)
          × (d'.dron_count ≡ d.dron_count +ℤ pos 1)
          × (d'.dron_in_base_count ≡ (
              if is_base x.location then d.dron_in_base_count +ℤ pos 1 else d.dron_in_base_count))
          × (d'.next_dron_id ≡ d.next_dron_id)
          × (d'.maximum_dron_in_base_count ≡ d.maximum_dron_in_base_count)
          × (d'.dron_reserving_space_count ≡ d.dron_reserving_space_count))
unfolding add_dron
add_dron_outcome d free x c = elim (dec_lt 0 free.size) [
  | yes room ↦ inr (
    popped_index d free c room,
    (add_at d x (success, popped_index d free c room, rest d free c room)).1,
    rest d free c room,
    ap (add_at d x) (popped d free c room),
    ground (arith, (top_slot d free c room).1, (top_slot d free c room).2),
    omega (
      arith,
      c.slots,
      get_elem?-lt d.drones _ (top_slot d free c room).0 (top_slot d free c room).1,
    ),
    refl,
    refl,
    refl,
    refl,
    refl,
    refl,
  )
  | no none_left ↦
      inl (c.counted ∙ ap pos (omega (arith, c.split)), rw (pop_elem-empty free 0 (omega arith)))
]
