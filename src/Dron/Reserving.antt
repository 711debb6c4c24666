-- ===== src/Dron/Reserving.antt =====
-- The reservation in `force_base_return`.
use so_lab_project.Prelude.{◌≡◌, ◌⊎◌, inl, inr, true, false, Bool-cases, pos, ◌+ℤ◌}
use so_lab_project.Dron.{Shared, DronInternalData, has_room, reserve}

abbrev pub with_reservation : Shared → Shared
with_reservation sh = record sh {
  all = record (sh.all) { dron_reserving_space_count = sh.all.dron_reserving_space_count +ℤ pos 1 };
}

abbrev pub holding : DronInternalData → DronInternalData
holding me = record me { have_reserved_space = true }

module _ (sh : Shared) (me : DronInternalData) where
  pub reserve-had : me.have_reserved_space ≡ true → reserve sh me ≡ (true, sh, me)
  unfolding reserve
  reserve-had had = rw had

  pub reserve-room :
      me.have_reserved_space ≡ false
      → has_room sh.all ≡ true
      → reserve sh me ≡ (true, with_reservation sh, holding me)
  unfolding reserve
  reserve-room none_yet room = rw (none_yet, room)

  pub reserve-full :
      me.have_reserved_space ≡ false → has_room sh.all ≡ false → reserve sh me ≡ (false, sh, me)
  unfolding reserve
  reserve-full none_yet full = rw (none_yet, full)

-- A drone that goes on to the gate had a reservation, or took one while there was room.
pub reserve-true :
    (sh sh' : Shared) (me me' : DronInternalData)
    → reserve sh me ≡ (true, sh', me')
    → (me.have_reserved_space ≡ true) × (sh' ≡ sh) × (me' ≡ me)
      ⊎ ((me.have_reserved_space ≡ false)
          × (has_room sh.all ≡ true)
          × (sh' ≡ with_reservation sh)
          × (me' ≡ holding me))
reserve-true sh sh' me me' e = elim (Bool-cases me.have_reserved_space) [
  | inl had ↦ inl (had, cc (e, reserve-had sh me had), cc (e, reserve-had sh me had))
  | inr none_yet ↦ elim (Bool-cases (has_room sh.all)) [
    | inl room ↦ inr (
      none_yet,
      room,
      cc (e, reserve-room sh me none_yet room),
      cc (e, reserve-room sh me none_yet room),
    )
    | inr full ↦ cc (e, reserve-full sh me none_yet full)
  ]
]
