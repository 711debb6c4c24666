-- ===== src/Shm/Scanning.antt =====
-- `SHM_AllDronesData_get_dron_pid`: the first slot in use, or -1.
use so_lab_project.Prelude.{
  ℕ, zero, suc, ◌+◌, ◌≡◌, ◌≢◌, refl, sym, ap, ◌∙◌, subst, ◌⊎◌, inl, inr, true, false, Bool-cases,
  [], ◌∷◌, Option, none, some, pos, negsuc, arith, get_elem?, length, take, take-suc, take-length,
  total, total-append, get_elem?-total,
}
use so_lab_project.Stack.{Stack}
use so_lab_project.Shm.{
  undefine, is_undefine, DronData, AllDronesData, scan_pid, get_dron_pid, pid_or_error,
}
use so_lab_project.Shm.Consistency.{live, IsConsistent}

-- What the scan finds: no slot in use, or the first one.
abbrev Scans : AllDronesData → Option ℕ → Type 0
Scans d r =
    ((r ≡ none) × (total live d.drones ≡ 0))
    ⊎ ((k : ℕ) × (x : DronData) × (get_elem? d.drones k ≡ some x)
        × (x.location ≢ undefine)
        × (total live (take k d.drones) ≡ 0)
        × (r ≡ some x.pid))

undefine-live : (x : DronData) → is_undefine x.location ≡ true → live x ≡ 0
undefine-live x h = ground arith

defined : (x : DronData) → is_undefine x.location ≡ false → x.location ≢ undefine
defined x h = ground arith

take-suc-live :
    (d : AllDronesData) (i : ℕ) (x : DronData)
    → get_elem? d.drones i ≡ some x
    → total live (take (suc i) d.drones) ≡ total live (take i d.drones) + live x
unfolding total
take-suc-live d i x h =
    rw (take-suc d.drones i x h) (omega (arith, total-append live (take i d.drones) (x ∷ [])))

module _ (n i : ℕ) (d : AllDronesData) (x : DronData) (slot : get_elem? d.drones i ≡ some x) where
  scan_pid-skips : is_undefine x.location ≡ true → scan_pid (suc n) i d ≡ scan_pid n (suc i) d
  unfolding scan_pid
  scan_pid-skips skip = ground arith

  scan_pid-finds : is_undefine x.location ≡ false → scan_pid (suc n) i d ≡ some x.pid
  unfolding scan_pid
  scan_pid-finds found = ground arith

scan_pid-Scans :
    (n i : ℕ) (d : AllDronesData)
    → length d.drones ≡ n + i
    → total live (take i d.drones) ≡ 0
    → Scans d (scan_pid n i d)
unfolding scan_pid
scan_pid-Scans zero i d e z = inl (refl, subst (λ l. total live l ≡ 0) whole z)
  where
    whole : take i d.drones ≡ d.drones
    whole = rw (← all) (take-length d.drones)
      where
        all : length d.drones ≡ i
        all = omega (arith, e)
scan_pid-Scans (suc n) i d e z =
    let (x, slot) = get_elem?-total d.drones i (omega (arith, e)) in
    elim (Bool-cases (is_undefine x.location)) [
      | inl skip ↦ subst (Scans d) (sym (scan_pid-skips n i d x slot skip)) (
          scan_pid-Scans n (suc i) d (omega (arith, e))
            (omega (arith, take-suc-live d i x slot, undefine-live x skip, z)))
      | inr found ↦ inr (i, x, slot, defined x found, z, scan_pid-finds n i d x slot found)
    ]

-- On a consistent state `get_dron_pid` returns -1 with no drone counted, or the pid of the first slot
-- in use.
pub get_dron_pid_outcome :
    (d : AllDronesData) (free : Stack ℕ)
    → IsConsistent d free
    → ((get_dron_pid d ≡ negsuc 0) × (d.dron_count ≡ pos 0))
      ⊎ ((k : ℕ) × (x : DronData) × (get_elem? d.drones k ≡ some x)
          × (x.location ≢ undefine)
          × (total live (take k d.drones) ≡ 0)
          × (get_dron_pid d ≡ pos x.pid))
unfolding get_dron_pid total
get_dron_pid_outcome d free c = elim (scan_pid-Scans d.capacity 0 d (omega (arith, c.slots)) refl) [
  | inl (e, z) ↦ inl (ap pid_or_error e, c.counted ∙ ap pos z)
  | inr (k, x, slot, used, before, e) ↦ inr (k, x, slot, used, before, ap pid_or_error e)
]
