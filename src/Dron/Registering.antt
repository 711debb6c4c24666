-- ===== src/Dron/Registering.antt =====
-- How `try_adding_self_to_shm` can end on a consistent shared memory.
use so_lab_project.Prelude.{
  ◌+◌, ◌<◌, ◌≡◌, ◌≢◌, sym, ap, ◌∙◌, inl, inr, true, false, Bool-cases, ◌||◌, some, Option, subst, ℕ,
  pos, ◌+ℤ◌, set, if◌then◌else◌, ◌↔◌,
}
use so_lab_project.Stack.{Stack}
use so_lab_project.Shm.{
  undefine, DronData, AllDronesData, is_mission, is_base, location_at, add_dron,
}
use so_lab_project.Shm.Consistency.{IsConsistent, retuned-IsConsistent}
use so_lab_project.Shm.Adding.{add_dron_outcome, add_dron-IsConsistent}
use so_lab_project.Dron.{Shared, no_room, no_memory, placed, take_id, register, has_room}

-- The shared memory with the next id counted on.
abbrev pub next_id : Shared → Shared
next_id sh = record sh { all = record (sh.all) { next_dron_id = sh.all.next_dron_id + 1 } }

module _ (sh : Shared) (x : DronData) where
  register-open :
      (has_room sh.all || is_mission x.location) ≡ true
      → register sh x ≡ take_id (add_dron sh.all sh.free x)
  unfolding register take_id
  register-open h = rw (register, h)

  register-shut : (has_room sh.all || is_mission x.location) ≡ false → register sh x ≡ no_room
  unfolding register
  register-shut h = rw (register, h)

-- On a consistent state the registration is refused for lack of room exactly when the base has no
-- room left and the drone does not start on a mission.
pub register-no_room :
    (sh : Shared) (x : DronData)
    → IsConsistent sh.all sh.free
    → (register sh x ≡ no_room) ↔ ((has_room sh.all || is_mission x.location) ≡ false)
unfolding take_id
register-no_room sh x c = (
  (λ h. elim (Bool-cases (has_room sh.all || is_mission x.location)) [
    | inl open_ ↦ elim (add_dron_outcome sh.all sh.free x c) [
      | inl (full, e) ↦ cc (h, register-open sh x open_, ap take_id e)
      | inr o ↦ cc (h, register-open sh x open_, ap take_id o.3)
    ]
    | inr shut ↦ shut
  ]),
  register-shut sh x,
)

pub register-no_memory :
    (sh sh' : Shared) (x : DronData)
    → IsConsistent sh.all sh.free
    → register sh x ≡ no_memory sh'
    → (sh.all.dron_count ≡ pos sh.all.capacity) × (sh' ≡ next_id sh)
unfolding take_id
register-no_memory sh sh' x c h = elim (Bool-cases (has_room sh.all || is_mission x.location)) [
  | inl open_ ↦ elim (add_dron_outcome sh.all sh.free x c) [
    | inl (full, e) ↦ (full, cc (h, register-open sh x open_, ap take_id e))
    | inr o ↦ cc (h, register-open sh x open_, ap take_id o.3)
  ]
  | inr shut ↦ cc (h, register-shut sh x shut)
]

-- A drone that is placed, from a consistent state and with a location other than `LOCATION_UNDEFINE`,
-- had room in the base or starts on a mission; the state stays consistent; the drone is written to a
-- slot that was unused and to no other; it counts as in the base if it is there; the limit and the
-- reservations stay; and it has the next id, which goes up by one.
pub register-placed :
    (sh sh' : Shared) (x : DronData) (i id : ℕ)
    → IsConsistent sh.all sh.free
    → x.location ≢ undefine
    → register sh x ≡ placed i id sh'
    → ((has_room sh.all || is_mission x.location) ≡ true)
      × IsConsistent sh'.all sh'.free
      × (location_at sh.all i ≡ undefine)
      × (i < sh.all.capacity)
      × (sh'.all.drones ≡ set sh.all.drones i x)
      × (sh'.all.dron_in_base_count ≡ (
          if is_base x.location
          then sh.all.dron_in_base_count +ℤ pos 1
          else sh.all.dron_in_base_count))
      × (sh'.all.maximum_dron_in_base_count ≡ sh.all.maximum_dron_in_base_count)
      × (sh'.all.dron_reserving_space_count ≡ sh.all.dron_reserving_space_count)
      × (id ≡ sh.all.next_dron_id)
      × (sh'.all.next_dron_id ≡ sh.all.next_dron_id + 1)
unfolding take_id
register-placed sh sh' x i id c used h =
    elim (Bool-cases (has_room sh.all || is_mission x.location)) [
      | inl open_ ↦ elim (add_dron_outcome sh.all sh.free x c) [
        | inl (full, e) ↦ cc (h, register-open sh x open_, ap take_id e)
        | inr (j, d', free', e, vacated, lt, drones, counted, based, same_id, same_max, same_res) ↦
            let same : placed i id sh' ≡ take_id (some j, d', free') =
              sym h ∙ register-open sh x open_ ∙ ap take_id e in
            let here : i ≡ j = cc in
            let after : sh' ≡ next_id (record { all = d'; free = free' }) = cc in
            let kept : IsConsistent d' free' =
              subst (λ (r : Option ℕ × AllDronesData × Stack ℕ). IsConsistent r.1 r.2) e
                (add_dron-IsConsistent sh.all sh.free x c used) in
            (
              open_,
              subst (λ (z : Shared). IsConsistent z.all z.free) (sym after)
                  (retuned-IsConsistent d' free' (d'.next_dron_id + 1) d'.maximum_dron_in_base_count
                    d'.dron_reserving_space_count kept),
              rw here vacated,
              rw here lt,
              rw (after, here) drones,
              rw after based,
              rw after same_max,
              rw after same_res,
              cc,
              rw (after, same_id),
            )
      ]
      | inr shut ↦ cc (h, register-shut sh x shut)
    ]
