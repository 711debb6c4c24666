-- ===== src/Client/Reaping.antt =====
-- `close_main` of the operator, which waits for its children.
use so_lab_project.Prelude.{
  ℕ, zero, suc, ◌≡◌, refl, sym, ap, ◌∙◌, subst, Bool, true, false, List, ◌∷◌, ◌++◌, Option, some, ℤ,
  pos, leb_ℤ, ◌&&◌, if◌then◌else◌, replicate,
}
use so_lab_project.Ipc.{Answer, done, failed, minus_one}
use so_lab_project.Ipc.Acts.{next, ◌>=>◌, exits}
use so_lab_project.Ipc.Objects.{Segment, shm_detach}
use so_lab_project.Client.{
  Client, heard, put_all_drones, put_stack, leave_segment, written, leave_stack,
}
use so_lab_project.Client.Holding.{Held}
use so_lab_project.Client.Leaving.{left_segment, left_segment-SegmentLeft, SegmentLeft}
use so_lab_project.Client.Operator

pick {ℓ} :
    {S : Type ℓ} (Q : Option (S × List Answer) → Type 0) (b : Bool) (gone kept : S)
    (rest answers : List Answer)
    → Q (some ((if b then gone else kept), rest))
    → Q (some ((if b then gone else kept), answers))
    → Q (if b then some (gone, rest) else some (kept, answers))
pick Q true gone kept rest answers y n = y
pick Q false gone kept rest answers y n = n

leave_cases :
    (Q : Option (Segment × List Answer) → Type 0) (g : Segment) (rest : List Answer)
    → Q (some (left_segment g, rest))
    → Q (some (left_segment g, done ∷ rest))
    → Q (leave_segment g (done ∷ rest))
unfolding leave_segment shm_detach
leave_cases Q g rest y n =
    pick Q (leb_ℤ (pos 0) g.identifier && g.mapped) _ g rest (done ∷ rest) y n

reap-children :
    (n : ℕ) (rest : List Answer) → Operator.reap (replicate n done ++ failed ∷ rest) ≡ some rest
unfolding Operator.reap
reap-children zero rest = refl
reap-children (suc n) rest = reap-children n rest

-- How the end of the operator leaves the two segments and the waiting.
abbrev Leaves : ℤ → Segment → Segment → List Answer → Option (ℤ × Client) → Type 0
Leaves e drones stack waits o =
    (c' : Client) × (o ≡ some (e, c'))
    × (c'.all_drones ≡ drones)
    × (c'.stack ≡ stack)
    × (c'.waits ≡ waits)

module _ (e : ℤ) (rest : List Answer) where
  wait_part :
      (c : Client)
      → Operator.reap c.waits ≡ some rest
      → Leaves e c.all_drones c.stack rest
          (exits e ((Operator.forget_semaphore >=> Operator.reap_children) c))
  wait_part c h =
      let d : Client = record c {
        all_drones_semaphore = record (c.all_drones_semaphore) { identifier = minus_one };
      } in
      (_, ap (λ o. exits e (Operator.reaped d o)) h, refl, refl, refl)

  stack_part :
      (c : Client) (answers : List Answer)
      → Operator.reap c.waits ≡ some rest
      → Leaves e c.all_drones (left_segment c.stack) rest (
          exits e (
            (leave_stack >=> Operator.forget_semaphore >=> Operator.reap_children)
              (heard c (done ∷ answers))))
  stack_part c answers h =
      leave_cases
        (λ o. Leaves e c.all_drones (left_segment c.stack) rest (
          exits e (
            next (written put_stack (heard c (done ∷ answers)) o)
              (Operator.forget_semaphore >=> Operator.reap_children))))
        c.stack answers (wait_part (put_stack (left_segment c.stack) (heard c answers)) h)
        (wait_part (put_stack (left_segment c.stack) (heard c (done ∷ answers))) h)

-- From any state that a start can lead to, when both calls of `shm_detach` succeed, the
-- `close_main` of the operator calls `wait` as long as it gives a child, `children` times (0 where
-- SIGCHLD is ignored), and once more to see it fail; then it ends with its exit code and with no
-- segment attached; the segments stay there for the others.
pub close_main-Reaps :
    (e : ℤ) (first c : Client) (children : ℕ) (calls rest : List Answer)
    → Held first c
    → c.answers ≡ done ∷ done ∷ calls
    → c.waits ≡ replicate children done ++ failed ∷ rest
    → (c' : Client) × (Operator.close_main e c ≡ some (e, c'))
      × SegmentLeft first.all_drones c'.all_drones
      × SegmentLeft first.stack c'.stack
      × (c'.waits ≡ rest)
unfolding Operator.close_main
close_main-Reaps e first c children calls rest (a, b, x, y, z, u, v) h w =
    let d : Client = put_all_drones (left_segment c.all_drones) c in
    let reaped = ap Operator.reap w ∙ reap-children children rest in
    let (c', done_, drones, stack, over) =
      subst
        (λ l.
          Leaves e (left_segment c.all_drones) (left_segment c.stack) rest
            (Operator.close_main e (heard c l)))
        (sym h)
        (leave_cases
          (λ o. Leaves e (left_segment c.all_drones) (left_segment c.stack) rest (
            exits e (
              next (written put_all_drones (heard c (done ∷ done ∷ calls)) o)
                (leave_stack >=> Operator.forget_semaphore >=> Operator.reap_children))))
          c.all_drones (done ∷ calls) (stack_part e rest d calls reaped)
          (stack_part e rest d (done ∷ calls) reaped)) in
    (
      c',
      done_,
      subst (SegmentLeft first.all_drones) (sym drones)
          (left_segment-SegmentLeft first.all_drones c.all_drones a),
      subst (SegmentLeft first.stack) (sym stack) (left_segment-SegmentLeft first.stack c.stack b),
      over,
    )
