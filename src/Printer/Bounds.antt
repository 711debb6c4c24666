-- ===== src/Printer/Bounds.antt =====
-- Which messages stay inside the buffers of src/utils/printer.c.
use Prim.Native.Nat.{min}
use so_lab_project.Prelude.{
  ℕ, ◌+◌, ◌-◌, ◌≤◌, ◌<◌, ◌≡◌, ◌^◌, ◌↔◌, dec_lt, refl, ◌⊎◌, inl, inr, arith,
}
use so_lab_project.Printer.{Range, Line, buffer_size, size_left, stored, clamp, compose}

-- No byte of the range lies outside the buffer.
abbrev pub IsInside : Range → Type 0
IsInside r = (r.bytes ≡ 0) ⊎ (r.from + r.bytes ≤ buffer_size)

abbrev pub LineInside : Line → Type 0
LineInside l = IsInside l.prefix × IsInside l.message × IsInside l.ending

-- The size argument is what is left of the buffer up to its end, and enormous behind it.
size_left-inside : (p : ℕ) → p ≤ 1024 → size_left p ≡ 1024 - p
unfolding size_left
size_left-inside p h = omega arith

size_left-outside : (p : ℕ) → 1024 < p → p < 2 ^ 31 → 2 ^ 63 < size_left p
unfolding size_left
size_left-outside p h b = omega arith

-- What is stored for a size that is not 0, and for 0.
stored-some : (p n s : ℕ) → 0 < s → (stored p n s).bytes ≡ min n (s - 1) + 1
unfolding stored
stored-some p n s h = ground arith

stored-none : (p n : ℕ) → (stored p n 0).bytes ≡ 0
unfolding stored
stored-none p n = refl

stored-from : (p n s : ℕ) → (stored p n s).from ≡ p
unfolding stored
stored-from p n s = refl

at_end : (n : ℕ) → (stored 1024 n (size_left 1024)).bytes ≡ 0
unfolding stored size_left
at_end n = refl

stored-IsInside : (p n : ℕ) → p ≤ 1024 → IsInside (stored p n (size_left p))
stored-IsInside p n h = elim (dec_lt p 1024) [
  | yes below ↦ inr (
      omega (
        arith,
        stored-from p n (size_left p),
        stored-some p n (size_left p) (omega (arith, size_left-inside p h)),
        size_left-inside p h,
      ))
  | no end ↦ let e : p ≡ 1024 = omega (arith, h) in inl (rw e (at_end n))
]

stored-outside : (p n : ℕ) → 1024 < p → p + n < 2 ^ 31 → ¬ IsInside (stored p n (size_left p))
stored-outside p n h b (inl e) =
    omega
      (arith, e, stored-some p n (size_left p) (omega (arith, size_left-outside p h (omega arith))))
stored-outside p n h b (inr le) = omega (
  arith,
  le,
  stored-from p n (size_left p),
  stored-some p n (size_left p) (omega (arith, size_left-outside p h (omega arith))),
)

-- For lengths that fit an `int` together, all three calls that make a line stay inside the buffer
-- exactly when the prefix and the message are not longer than the buffer; a longer message makes the
-- last call write behind it.
pub compose-LineInside :
    (prefix message ending : ℕ)
    → prefix + message + ending < 2 ^ 31
    → LineInside (compose prefix message ending) ↔ (prefix + message ≤ buffer_size)
unfolding compose
compose-LineInside prefix message ending b = (
  λ inside. elim (dec_lt 1024 (prefix + message)) [
    | yes long ↦ absurd (stored-outside (prefix + message) ending long b inside.2)
    | no short ↦ omega (arith, short)
  ],
  λ short. (
    stored-IsInside 0 prefix (omega arith),
    stored-IsInside prefix message (omega (arith, short)),
    stored-IsInside (prefix + message) ending short,
  ),
)

-- What is sent lies in the buffer, and is the whole line if that is shorter than the buffer.
pub compose-sent :
    (prefix message ending : ℕ)
    → ((compose prefix message ending).sent < buffer_size)
      × ((compose prefix message ending).sent ≡ min (prefix + message + ending) (buffer_size - 1))
unfolding compose clamp
compose-sent prefix message ending = (ground arith, ground arith)
