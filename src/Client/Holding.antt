-- ===== src/Client/Holding.antt =====
-- What a process holds of the shared objects while it starts, whatever the system answers.
use so_lab_project.Prelude.{
  ℕ, ◌+◌, ◌≡◌, ◌⊎◌, inl, inr, refl, Bool, true, false, List, Option, ℤ, pos, leb_ℤ, arith,
  if◌then◌else◌,
}
use so_lab_project.Ipc.{Answer, minus_one}
use so_lab_project.Ipc.Acts.{◌>>=◌, EndsIn, follow-EndsIn}
use so_lab_project.Ipc.Attempts.{attempt_rule}
use so_lab_project.Ipc.Gate.{Place}
use so_lab_project.Ipc.Objects.{
  Segment, Semaphore, shm_get, shm_attach, semaphore_get, grab_key_from_file,
}
use so_lab_project.Client.{
  Client, Act, heard, call, with_key, need_key, unchecked, any_key, got, attached_to, found,
  put_all_drones, put_stack, get_all_drones, attach_all_drones, get_stack, attach_stack,
}

-- A segment exists as it did at first; it is attached once or not at all, as its pointer says; and no
-- pointer is set without the id.
abbrev pub SegmentHeld : Segment → Segment → Type 0
SegmentHeld first g =
    (g.exists ≡ first.exists)
    × (g.attached ≡ (if g.mapped then 1 else 0))
    × ((leb_ℤ (pos 0) g.identifier ≡ true) ⊎ (g.mapped ≡ false))

-- The FIFO exists as it did at first, and its descriptor is set exactly when it is open.
abbrev pub GateHeld : Place → Place → Type 0
GateHeld first p = (p.exists ≡ first.exists) × (leb_ℤ (pos 0) p.fifo.file_descriptor ≡ p.is_open)

abbrev pub Held : Client → Client → Type 0
Held first c =
    SegmentHeld first.all_drones c.all_drones
    × SegmentHeld first.stack c.stack
    × GateHeld first.gate c.gate
    × (c.config.exists ≡ first.config.exists)
    × (c.config_semaphore.exists ≡ first.config_semaphore.exists)
    × (c.all_drones_semaphore.exists ≡ first.all_drones_semaphore.exists)
    × (c.gate_semaphore.exists ≡ first.gate_semaphore.exists)

-- How far a process came: which segments are attached, and whether the gate is open.
abbrev pub Reached : Client → Bool → Bool → Bool → Client → Type 0
Reached first drones stack gate c =
    Held first c
    × (c.all_drones.mapped ≡ drones)
    × (c.stack.mapped ≡ stack)
    × (c.gate.is_open ≡ gate)

-- A process before its start.
abbrev pub IsNew : Client → Type 0
IsNew c = Reached c false false false c

pub not_negative : (n : ℕ) → leb_ℤ (pos 0) (pos n) ≡ true
not_negative n = ground arith

module _ (first : Client) where
  abbrev pub Leads : (Client → Type 0) → (Client → Type 0) → Act → Type 0
  Leads P Q a = (c : Client) → P c → EndsIn (Held first) Q (a c)

  pub chain :
      (P Q R : Client → Type 0) (a b : Act) → Leads P Q a → Leads Q R b → Leads P R (a >>= b)
  chain P Q R a b h k c p = follow-EndsIn (Held first) Q R (a c) b (h c p) k

  module _ (d s g : Bool) where
    pub call-Leads : Leads (Reached first d s g) (Reached first d s g) call
    call-Leads c h =
        attempt_rule (EndsIn (Held first) (Reached first d s g)) c.answers _ _ tt (λ r. h)
          (λ r. h.0)

    pub need_key-Leads : Leads (Reached first d s g) (Reached first d s g) need_key
    unfolding grab_key_from_file
    need_key-Leads c h =
        let P : Option (ℤ × List Answer) → Type 0 =
          λ o. EndsIn (Held first) (Reached first d s g) (with_key c o) in
        attempt_rule P c.answers _ _ tt
          (λ r.
            attempt_rule P r _ _ tt (λ r. attempt_rule P r _ _ tt (λ r. h) (λ r. h.0)) (λ r. h.0))
          (λ r. h.0)

    pub any_key-Leads : Leads (Reached first d s g) (Reached first d s g) any_key
    unfolding grab_key_from_file
    any_key-Leads c h =
        let P : Option (ℤ × List Answer) → Type 0 =
          λ o. EndsIn (Held first) (Reached first d s g) (unchecked (with_key c o)) in
        attempt_rule P c.answers _ _ tt
          (λ r. attempt_rule P r _ _ tt (λ r. attempt_rule P r _ _ tt (λ r. h) (λ r. h)) (λ r. h))
          (λ r. h)

    pub found-Leads :
        (put : Semaphore → Client → Client) (get : Client → Semaphore)
        → ((c : Client) (i : ℤ) (r : List Answer)
            → Reached first d s g c
            → Reached first d s g (put (record (get c) { identifier = i }) (heard c r)))
        → Leads
            (Reached first d s g)
            (Reached first d s g)
            (λ c. found put c (semaphore_get (get c) c.answers))
    unfolding semaphore_get
    found-Leads put get keeps c h =
        attempt_rule (λ o. EndsIn (Held first) (Reached first d s g) (found put c o)) c.answers _ _
          tt (λ r. keeps c (pos (get c).number) r h) (λ r. (keeps c minus_one r h).0)

  -- Behind `shm_get` the segment has its id.
  abbrev pub WithId : (Client → Segment) → Bool → Bool → Bool → Client → Type 0
  WithId get d s g c = Reached first d s g c × (leb_ℤ (pos 0) (get c).identifier ≡ true)

  segment_got :
      (f x : Segment) (i : ℤ)
      → SegmentHeld f x
      → x.mapped ≡ false
      → SegmentHeld f (record x { identifier = i })
  segment_got f x i (same, counted, known) m = (same, counted, inr m)

  segment_attached :
      (f x : Segment)
      → SegmentHeld f x
      → x.mapped ≡ false
      → leb_ℤ (pos 0) x.identifier ≡ true
      → SegmentHeld f (record x { attached = x.attached + 1; mapped = true })
  segment_attached f x (same, counted, known) m i = (same, ground arith, inl i)

  segment_missed :
      (f x : Segment)
      → SegmentHeld f x
      → x.mapped ≡ false
      → SegmentHeld f (record x { mapped = false })
  segment_missed f x (same, counted, known) m = (same, ground arith, inr refl)

  module _ (g : Bool) where
    pub get_all_drones-Leads :
        Leads
          (Reached first false false g)
          (WithId (λ c. c.all_drones) false false g)
          get_all_drones
    unfolding shm_get
    get_all_drones-Leads c ((a, b, p, x, y, z, k), m, n, o) =
        attempt_rule
          (λ o.
            EndsIn (Held first) (WithId (λ c. c.all_drones) false false g) (got put_all_drones c o))
          c.answers _ _ tt
          (λ r. (
            (
              (
                segment_got first.all_drones c.all_drones (pos c.all_drones.number) a m,
                b,
                p,
                x,
                y,
                z,
                k,
              ),
              m,
              n,
              o,
            ),
            not_negative c.all_drones.number,
          ))
          (λ r. (segment_got first.all_drones c.all_drones minus_one a m, b, p, x, y, z, k))

    pub attach_all_drones-Leads :
        Leads
          (WithId (λ c. c.all_drones) false false g)
          (Reached first true false g)
          attach_all_drones
    unfolding shm_attach
    attach_all_drones-Leads c (((a, b, p, x, y, z, k), m, n, o), i) =
        attempt_rule
          (λ o. EndsIn (Held first) (Reached first true false g) (attached_to put_all_drones c o))
          c.answers _ _ tt
          (λ r.
            ((segment_attached first.all_drones c.all_drones a m i, b, p, x, y, z, k), refl, n, o))
          (λ r. (segment_missed first.all_drones c.all_drones a m, b, p, x, y, z, k))

    pub get_stack-Leads :
        Leads (Reached first true false g) (WithId (λ c. c.stack) true false g) get_stack
    unfolding shm_get
    get_stack-Leads c ((a, b, p, x, y, z, k), m, n, o) =
        attempt_rule
          (λ o. EndsIn (Held first) (WithId (λ c. c.stack) true false g) (got put_stack c o))
          c.answers _ _ tt
          (λ r. (
            ((a, segment_got first.stack c.stack (pos c.stack.number) b n, p, x, y, z, k), m, n, o),
            not_negative c.stack.number,
          ))
          (λ r. (a, segment_got first.stack c.stack minus_one b n, p, x, y, z, k))

    pub attach_stack-Leads :
        Leads (WithId (λ c. c.stack) true false g) (Reached first true true g) attach_stack
    unfolding shm_attach
    attach_stack-Leads c (((a, b, p, x, y, z, k), m, n, o), i) =
        attempt_rule
          (λ o. EndsIn (Held first) (Reached first true true g) (attached_to put_stack c o))
          c.answers _ _ tt
          (λ r. ((a, segment_attached first.stack c.stack b n i, p, x, y, z, k), m, refl, o))
          (λ r. (a, segment_missed first.stack c.stack b n, p, x, y, z, k))
