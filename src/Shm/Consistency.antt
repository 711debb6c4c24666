-- ===== src/Shm/Consistency.antt =====
-- When the shared counters, the slots and the stack of free indices agree.
use so_lab_project.Prelude.{
  ℕ, ◌+◌, ◌≤◌, ◌<◌, ◌≡◌, ◌≢◌, refl, List, [], ◌∷◌, ◌++◌, Option, none, some, ℤ, pos, arith, length,
  get_elem?, total, total-append, count, is_at,
}
use so_lab_project.Stack.{Stack, IsValid, contents}
use so_lab_project.Shm.{Location, undefine, base, DronData, AllDronesData}

abbrev pub live_at : Location → ℕ
live_at undefine = 0
live_at _ = 1

abbrev pub base_at : Location → ℕ
base_at base = 1
base_at _ = 0

-- Slots in use, slots in the base, and whether an index names an unused slot.
abbrev pub live : DronData → ℕ
live x = live_at x.location

abbrev pub in_base : DronData → ℕ
in_base x = base_at x.location

abbrev pub vacant : Option DronData → ℕ
vacant none = 0
vacant (some x) = elim x.location [ undefine ↦ 1 | _ ↦ 0 ]

pub record IsConsistent (d : AllDronesData) (free : Stack ℕ) : Type 0 where
  pub slots : length d.drones ≡ d.capacity
  pub free_valid : IsValid free
  pub free_capacity : free.capacity ≡ d.capacity
  pub counted : d.dron_count ≡ pos (total live d.drones)
  pub based : d.dron_in_base_count ≡ pos (total in_base d.drones)
  pub split : free.size + total live d.drones ≡ d.capacity
  -- Each unused slot stands on the stack once, and nothing else stands there.
  pub unused : (i : ℕ) → count i (contents free) ≡ vacant (get_elem? d.drones i)

pub vacant-pos :
    (o : Option DronData) → 0 < vacant o → (x : DronData) × (o ≡ some x) × (x.location ≡ undefine)
vacant-pos none h = absurd (omega arith)
vacant-pos (some x) h = (x, refl, ground arith)

pub vacant-live : (x : DronData) → vacant (some x) + live x ≡ 1
vacant-live x = ground arith

pub live-one : (x : DronData) → x.location ≢ undefine → live x ≡ 1
live-one x h = ground arith

pub in_base-le-live : (x : DronData) → in_base x ≤ live x
in_base-le-live x = ground arith

-- The count of an index after one more is put at the end.
pub count-snoc : (i : ℕ) (xs : List ℕ) (x : ℕ) → count i (xs ++ x ∷ []) ≡ count i xs + is_at i x
unfolding count total
count-snoc i xs x = omega (arith, total-append (is_at i) xs (x ∷ []))

-- New values for the fields that neither the slots nor the counts of drones depend on.
abbrev pub retuned : AllDronesData → ℕ → ℤ → ℤ → AllDronesData
retuned d id maximum reserving = record d {
  next_dron_id = id;
  maximum_dron_in_base_count = maximum;
  dron_reserving_space_count = reserving;
}

pub retuned-IsConsistent :
    (d : AllDronesData) (free : Stack ℕ) (id : ℕ) (m r : ℤ)
    → IsConsistent d free
    → IsConsistent (retuned d id m r) free
retuned-IsConsistent d free id m r c = record {
  slots = c.slots;
  free_valid = c.free_valid;
  free_capacity = c.free_capacity;
  counted = c.counted;
  based = c.based;
  split = c.split;
  unused = c.unused;
}
