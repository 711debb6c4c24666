-- ===== src/Client/Closing.antt =====
-- `close_main` of a drone, the operator and the commander behind their starts.
use so_lab_project.Prelude.{
  ℕ, suc, ◌≡◌, ◌≢◌, refl, ap, Bool, true, false, List, Option, some, ℤ, pos,
}
use so_lab_project.Ipc.{Answer, minus_one}
use so_lab_project.Ipc.Acts.{◌>=>◌, exits}
use so_lab_project.Ipc.Attempts.{Succeed, fewer, done_rule}
use so_lab_project.Ipc.Attempts.Chains.{Requires, seq}
use so_lab_project.Ipc.Objects.{Segment}
use so_lab_project.Client.{
  Client, Ending, heard, put_all_drones, put_stack, leave_segment, written, leave_all_drones,
  leave_stack,
}
use so_lab_project.Client.Holding.{Held}
use so_lab_project.Client.Leaving.{
  left_segment, released_segment, left_gate, leave_segment_rule, release_segment_rule,
  leave_gate_rule, left_segment-SegmentLeft, released_segment-SegmentLeft, left_gate-GateLeft, Left,
  SegmentLeft,
}
use so_lab_project.Client.Dron
use so_lab_project.Client.Commander

abbrev Part : ℕ → ℕ → Ending → (Client → Client) → Type 0
Part = Requires (λ c. c.answers) heard (λ _. Unit {0})

parts :
    (p q n : ℕ) (a b : Ending) (f g : Client → Client)
    → ((c : Client) (r s : List Answer) → heard (g (heard c r)) s ≡ heard (g c) s)
    → Part p q a f
    → Part q n b g
    → Part p n (a >=> b) (λ c. g (f c))
parts p q n a b f g =
    seq (λ c. c.answers) heard (λ _. Unit {0}) (λ m r. refl) p q n a b f g (λ m r u. tt)

abbrev Reads {ℓ} : {R : Type ℓ} → (Option R → Option Client) → ℕ → Client → Option R → Type 0
Reads k q c o = (r : List Answer) × (k o ≡ some (heard c r)) × Succeed q r

module _ (q : ℕ) where
  leave-Part :
      (put : Segment → Client → Client) (get : Client → Segment)
      → ((g : Segment) (c : Client) (r : List Answer) → put g (heard c r) ≡ heard (put g c) r)
      → Part
          (suc q)
          q
          (λ c. written put c (leave_segment (get c) c.answers))
          (λ c. put (left_segment (get c)) c)
  leave-Part put get late = record {
    run = λ c u h.
        leave_segment_rule q c.answers (Reads (written put c) q (put (left_segment (get c)) c))
          (get c) h (λ r h. (r, ap some (late (left_segment (get c)) c r), h));
  }

  release-Part :
      (put : Segment → Client → Client) (get : Client → Segment)
      → ((g : Segment) (c : Client) (r : List Answer) → put g (heard c r) ≡ heard (put g c) r)
      → Part
          (suc q)
          q
          (λ c. written put c (Commander.release_segment (get c) c.answers))
          (λ c. put (released_segment (get c)) c)
  release-Part put get late = record {
    run = λ c u h.
        release_segment_rule q c.answers
          (Reads (written put c) q (put (released_segment (get c)) c)) (get c) h
          (λ r h. (r, ap some (late (released_segment (get c)) c r), h));
  }

  gate-Part : Part (suc q) q Dron.leave_gate_of (λ c. Dron.put_gate (left_gate c.gate) c)
  gate-Part = record {
    run = λ c u h.
        leave_gate_rule q c.answers
          (Reads (written Dron.put_gate c) q (Dron.put_gate (left_gate c.gate) c)) c.gate h
          (λ r h. (r, refl, h));
  }

abbrev stopped : Client → Client
stopped c = record c { battery_working = false }

stop_battery :
    (q : ℕ) (b : Bool) (c : Client)
    → c.battery_working ≡ b
    → Succeed (suc q) c.answers
    → (r : List Answer) × (Dron.join_battery c ≡ some (heard (stopped c) r)) × Succeed q r
stop_battery q true c e h = rw e (
    done_rule (λ o. (r : List Answer) × (o ≡ some (heard (stopped c) r)) × Succeed q r) q c.answers
      _ _ h (λ r h. (r, refl, h)))
stop_battery q false c e h = (c.answers, rw e refl, fewer q c.answers h)

battery-Part : (q : ℕ) → Part (suc q) q Dron.join_battery stopped
battery-Part q = record { run = λ c u h. stop_battery q c.battery_working c refl h }

abbrev no_semaphores : Client → Client
no_semaphores c = record c {
  all_drones_semaphore = record (c.all_drones_semaphore) { identifier = minus_one };
  gate_semaphore = record (c.gate_semaphore) { identifier = minus_one };
}

drone-Part :
    Part 4 0
      (leave_all_drones >=> leave_stack >=> Dron.leave_gate_of >=> Dron.forget_semaphores
        >=> Dron.join_battery)
      (λ c. record (no_semaphores c) {
        all_drones = left_segment c.all_drones;
        stack = left_segment c.stack;
        gate = left_gate c.gate;
        battery_working = false;
      })
drone-Part =
    parts 4 3 0 _ _ _ _ (λ c r s. refl)
      (leave-Part 3 put_all_drones (λ c. c.all_drones) (λ g c r. refl))
      (parts 3 2 0 _ _ _ _ (λ c r s. refl) (leave-Part 2 put_stack (λ c. c.stack) (λ g c r. refl))
        (parts 2 1 0 _ _ _ _ (λ c r s. refl) (gate-Part 1)
          (parts 1 1 0 _ _ no_semaphores stopped (λ c r s. refl)
            (record { run = λ c u h. (c.answers, refl, h) }) (battery-Part 0))))

abbrev no_ids : Client → Client
no_ids c = record c {
  all_drones = record (c.all_drones) { identifier = minus_one };
  stack = record (c.stack) { identifier = minus_one };
  all_drones_semaphore = record (c.all_drones_semaphore) { identifier = minus_one };
}

commander-Part : Part 2 0 Commander.cleanup_ipc_attachments (λ c.
    no_ids
      (record c { all_drones = released_segment c.all_drones; stack = released_segment c.stack }))
unfolding Commander.cleanup_ipc_attachments
commander-Part =
    parts 2 1 0 _ _ _ _ (λ c r s. refl)
      (release-Part 1 put_all_drones (λ c. c.all_drones) (λ g c r. refl))
      (parts 1 0 0 _ _ _ no_ids (λ c r s. refl)
        (release-Part 0 put_stack (λ c. c.stack) (λ g c r. refl))
        (record { run = λ c u h. (c.answers, refl, h) }))

-- From any state that a start can lead to, with success or without, when the calls succeed that give
-- back what is held and the descriptor of the gate is not 0: the `close_main` of a drone ends with its
-- exit code, with no segment attached and the gate closed, that of the commander with no segment
-- attached; and neither takes a segment or the FIFO away from the others.
pub close_main-Left :
    (e : ℤ) (first c : Client)
    → Held first c
    → c.gate.fifo.file_descriptor ≢ pos 0
    → Succeed 4 c.answers
    → ((c' : Client) × (Dron.close_main e c ≡ some (e, c')) × Left first c')
      × ((c' : Client) × (Commander.close_main e c ≡ some (e, c'))
          × SegmentLeft first.all_drones c'.all_drones
          × SegmentLeft first.stack c'.stack)
unfolding Dron.close_main Commander.close_main
close_main-Left e first c (a, b, g, x, y, z, w) n h =
    let (r, done_, rest) = drone-Part.run c tt h in
    let (s, done', rest') = commander-Part.run c tt (fewer 2 c.answers (fewer 3 c.answers h)) in
    (
      (
        _,
        ap (exits e) done_,
        (
          left_segment-SegmentLeft first.all_drones c.all_drones a,
          left_segment-SegmentLeft first.stack c.stack b,
          left_gate-GateLeft first.gate c.gate g n,
        ),
      ),
      (
        _,
        ap (exits e) done',
        released_segment-SegmentLeft first.all_drones c.all_drones a,
        released_segment-SegmentLeft first.stack c.stack b,
      ),
    )
