-- ===== src/Main/Launch/Sound.antt =====
-- What the variables of the main process say about the objects it created, however far its set-up came.
use so_lab_project.Prelude.{
  ℕ, ◌+◌, ◌≡◌, ◌∙◌, ◌⊎◌, inl, inr, if◌then◌else◌, refl, sym, ap, true, false, List, Option, some, ℤ,
  pos, leb_ℤ, arith,
}
use so_lab_project.Ipc.{FifoSem, Answer, minus_one, attempt}
use so_lab_project.Ipc.Acts.{EndsIn}
use so_lab_project.Ipc.Attempts.{attempt_rule}
use so_lab_project.Ipc.Gate.{Place}
use so_lab_project.Ipc.Objects.{
  given_up, Segment, Semaphore, shm_create, shm_attach, semaphore_create, semaphore_delete,
  grab_key_from_file,
}
use so_lab_project.Main.Launch.{
  Main, heard, with_key, need_key, unchecked, any_key, attached_to, created, create_segment, raised,
  create_semaphore, gate_path,
}

pub not_negative : (n : ℕ) → leb_ℤ (pos 0) (pos n) ≡ true
not_negative n = ground arith

-- A segment exists exactly when its id is set, it is attached once or not at all, as its pointer says,
-- and no pointer is set without the id.
pub record SegmentSound (g : Segment) : Type 0 where
  pub known : leb_ℤ (pos 0) g.identifier ≡ g.exists
  pub counted : g.attached ≡ (if g.mapped then 1 else 0)
  pub based : (g.exists ≡ true) ⊎ (g.mapped ≡ false)

unmapped :
    (g : Segment) → g.mapped ≡ false → g.attached ≡ 0 → g.attached ≡ (if g.mapped then 1 else 0)
unmapped g p a = ground arith

-- Created and attached; not created.
abbrev pub SegmentReady : Segment → Type 0
SegmentReady g = SegmentSound g × (g.mapped ≡ true)

abbrev pub SegmentFresh : Segment → Type 0
SegmentFresh g =
    (leb_ℤ (pos 0) g.identifier ≡ false)
    × (g.mapped ≡ false)
    × (g.exists ≡ false)
    × (g.attached ≡ 0)

-- A semaphore whose id is set exists.
abbrev pub SemaphoreSound : Semaphore → Type 0
SemaphoreSound s = (s.exists ≡ true) ⊎ (leb_ℤ (pos 0) s.identifier ≡ false)

abbrev pub SemaphoreReady : Semaphore → Type 0
SemaphoreReady s = (s.exists ≡ true) × (leb_ℤ (pos 0) s.identifier ≡ true)

abbrev pub SemaphoreFresh : Semaphore → Type 0
SemaphoreFresh s = (s.exists ≡ false) × (leb_ℤ (pos 0) s.identifier ≡ false)

-- A descriptor is in the structure exactly when it is open, and then the path is there too.
abbrev pub GateSound : Place → Type 0
GateSound p =
    (leb_ℤ (pos 0) p.fifo.file_descriptor ≡ p.is_open)
    × ((p.is_open ≡ false) ⊎ (p.fifo.path ≡ gate_path))

abbrev pub GateReady : ℕ → Place → Type 0
GateReady fd p =
    (p.is_open ≡ true)
    × (p.exists ≡ true)
    × (p.fifo ≡ record { path = gate_path; file_descriptor = pos fd; capacity = pos 2 })

abbrev pub GateFresh : Place → Type 0
GateFresh p = (p.is_open ≡ false) × (leb_ℤ (pos 0) p.fifo.file_descriptor ≡ false)

-- A property of each object of the main process.
abbrev pub Parts :
    (Segment → Type 0)
    → (Segment → Type 0)
    → (Segment → Type 0)
    → (Semaphore → Type 0)
    → (Semaphore → Type 0)
    → (Semaphore → Type 0)
    → (Place → Type 0)
    → Main
    → Type 0
Parts A B C D E H G m =
    A m.config
    × B m.all_drones
    × C m.stack
    × D m.config_semaphore
    × E m.all_drones_semaphore
    × H m.gate_semaphore
    × G m.gate

abbrev pub Sound : Main → Type 0
Sound =
    Parts SegmentSound SegmentSound SegmentSound SemaphoreSound SemaphoreSound SemaphoreSound
      GateSound

-- Nothing was created yet.
abbrev pub IsUntouched : Main → Type 0
IsUntouched =
    Parts SegmentFresh SegmentFresh SegmentFresh SemaphoreFresh SemaphoreFresh SemaphoreFresh
      GateFresh

-- Everything was created.
abbrev pub IsComplete : Main → Type 0
IsComplete m =
    Parts SegmentReady SegmentReady SegmentReady SemaphoreReady SemaphoreReady SemaphoreReady
      (GateReady m.descriptor) m

-- How a part of the set-up can end.
abbrev pub Ends : (Main → Type 0) → Option (ℤ × Main) → Type 0
Ends = EndsIn Sound

pub fresh-SegmentSound : (g : Segment) → SegmentFresh g → SegmentSound g
fresh-SegmentSound g (i, p, e, a) = record {
  known = i ∙ sym e;
  counted = unmapped g p a;
  based = inr p;
}

module _ (Q : Main → Type 0) where
  pub create_segment-Ends :
      (put : Segment → Main → Main) (g : Segment) (m : Main)
      → SegmentFresh g
      → ((g : Segment) (r : List Answer) → SegmentReady g → Q (put g (heard m r)))
      → ((g : Segment) (r : List Answer) → SegmentSound g → Sound (put g (heard m r)))
      → Ends Q (create_segment put g m)
  unfolding create_segment shm_create shm_attach
  create_segment-Ends put g m (i, p, e, a) good bad =
      attempt_rule (λ o. Ends Q (created put m o)) m.answers _ _ tt
        (λ r.
          attempt_rule (λ o. Ends Q (attached_to put m o)) r _ _ tt
            (λ r. good _ r (
              record {
                known = not_negative g.number;
                counted = ap (λ k. k + 1) a;
                based = inl refl;
              },
              refl,
            ))
            (λ r.
              bad _ r (record { known = not_negative g.number; counted = a; based = inl refl })))
        (λ r.
          bad (record g { identifier = minus_one }) r
            (record { known = sym e; counted = unmapped g p a; based = inr p }))

  pub create_semaphore-Ends :
      (put : Semaphore → Main → Main) (s : Semaphore) (v : ℤ) (m : Main)
      → ((s : Semaphore) (r : List Answer) → SemaphoreReady s → Q (put s (heard m r)))
      → ((s : Semaphore) (r : List Answer) → SemaphoreSound s → Sound (put s (heard m r)))
      → Ends Q (create_semaphore put s v m)
  unfolding create_semaphore semaphore_create semaphore_delete
  create_semaphore-Ends put s v m good bad =
      attempt_rule (λ o. Ends Q (raised put m o)) m.answers _ _ tt
        (λ r.
          attempt_rule (λ o. Ends Q (raised put m o)) r _ _ tt
            (λ r. good _ r (refl, not_negative s.number))
            (λ r.
              attempt_rule (λ o. Ends Q (raised put m (given_up o))) r _ _ tt
                (λ r. bad _ r (inr refl)) (λ r. bad _ r (inr refl))))
        (λ r. bad _ r (inr refl))

  pub need_key-Ends :
      (m : Main)
      → ((r : List Answer) → Q (heard m r))
      → ((r : List Answer) → Sound (heard m r))
      → Ends Q (need_key m)
  unfolding grab_key_from_file
  need_key-Ends m good bad =
      attempt_rule (λ o. Ends Q (with_key m o)) m.answers _ _ tt
        (λ r.
          attempt_rule (λ o. Ends Q (with_key m o)) r _ _ tt
            (λ r. attempt_rule (λ o. Ends Q (with_key m o)) r _ _ tt good bad) bad)
        bad

  pub any_key-Ends : (m : Main) → ((r : List Answer) → Q (heard m r)) → Ends Q (any_key m)
  unfolding grab_key_from_file
  any_key-Ends m good =
      attempt_rule (λ o. Ends Q (unchecked (with_key m o))) m.answers _ _ tt
        (λ r.
          attempt_rule (λ o. Ends Q (unchecked (with_key m o))) r _ _ tt
            (λ r. attempt_rule (λ o. Ends Q (unchecked (with_key m o))) r _ _ tt good good) good)
        good

  pub fork-Ends :
      (m : Main) (put : List Answer → Main)
      → ((r : List Answer) → Q (put r))
      → ((r : List Answer) → Sound (heard m r))
      → Ends Q (attempt m.answers (λ r. some (pos 0, put r)) (λ r. some (minus_one, heard m r)))
  fork-Ends m put good bad = attempt_rule (Ends Q) m.answers _ _ tt good bad

pub fresh-SemaphoreSound : (s : Semaphore) → SemaphoreFresh s → SemaphoreSound s
fresh-SemaphoreSound s (e, i) = inr i

pub ready-SemaphoreSound : (s : Semaphore) → SemaphoreReady s → SemaphoreSound s
ready-SemaphoreSound s (e, i) = inl e

pub fresh-GateSound : (p : Place) → GateFresh p → GateSound p
fresh-GateSound p (o, f) = (f ∙ sym o, inl o)

pub ready-GateSound : (fd : ℕ) (p : Place) → GateReady fd p → GateSound p
ready-GateSound fd p (o, e, f) = (
  ap (λ (q : FifoSem). leb_ℤ (pos 0) q.file_descriptor) f ∙ not_negative fd ∙ sym o,
  inr (ap (λ (q : FifoSem). q.path) f),
)
