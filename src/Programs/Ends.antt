-- ===== src/Programs/Ends.antt =====
-- How a drone's `main` ends, whatever the system answers (src/dron/dron.c).
use so_lab_project.Prelude.{
  by_test, ℕ, zero, suc, ◌≡◌, ◌≢◌, refl, ap, ◌∙◌, subst, Bool, true, false, List, [], ◌∷◌, Option,
  none, some, ℤ, pos, negsuc,
}
use so_lab_project.Ipc.Attempts.{Succeed}
use so_lab_project.Ipc.Acts.{EndsIn}
use so_lab_project.Shm.{Location}
use so_lab_project.Dron.{Shared, Registration, no_room, no_memory, placed, register}
use so_lab_project.Dron.Code.{World, Outcome, ret, exited, blocked, follow, close_main}
use so_lab_project.Dron.Calls.{lock_rule, unlock_rule}
use so_lab_project.Dron.Loop.{
  Meanwhile, elapse, round, main_loop, register_self, try_adding_self_to_shm, or_close,
}
use so_lab_project.Dron.Discipline.{Tidy, Settled, Calm, tolerant, round-Settled}
use so_lab_project.Client.{Client}
use so_lab_project.Client.Holding.{Held, Reached, IsNew}
use so_lab_project.Client.Starting.{start_ups-Held}
use so_lab_project.Client.Leaving.{Left}
use so_lab_project.Client.Closing.{close_main-Left}
use so_lab_project.Programs.{Stop, noted, closed}
use so_lab_project.Programs.Dron
use so_lab_project.Client.Dron.{start_up, close_main as close_client}

register_self-Tidy : (w : World) (r : Registration) → w.tokens ≡ 0 → Tidy 0 (register_self w r)
unfolding register_self
register_self-Tidy w no_room h = tt
register_self-Tidy w (no_memory sh) h = tt
register_self-Tidy w (placed i id sh) h = unlock_rule (Tidy 0) (tolerant 0) _ _ λ rest. (refl, h)

try_adding-Tidy : (w : World) → w.tokens ≡ 0 → Tidy 0 (try_adding_self_to_shm w)
unfolding try_adding_self_to_shm
try_adding-Tidy w h =
    lock_rule (Tidy 0) (tolerant 0) _ w
      λ rest. register_self-Tidy _ (register w.shared w.local_data) h

-- The loop never comes back: it ends the process, or it waits.
abbrev Over : Outcome × World → Type 0
Over (ret c, w) = ⊥
Over r = Tidy 0 r

follow_round-Over :
    (r : Outcome × World) (es : List Meanwhile)
    → Settled 0 r
    → ((w : World) → Calm 0 w → Over (main_loop es w))
    → Over (follow r (λ c. main_loop es))
follow_round-Over (ret (pos zero), w) es h f = f w h
follow_round-Over (ret (pos (suc c)), w) es h f = absurd h
follow_round-Over (ret (negsuc c), w) es h f = absurd h
follow_round-Over (exited e, w) es h f = h
follow_round-Over (blocked, w) es h f = tt

main_loop-Over : (es : List Meanwhile) (w : World) → Calm 0 w → Over (main_loop es w)
unfolding main_loop close_main
main_loop-Over [] w h = tt
main_loop-Over (e ∷ es) w h =
    by_test Over (elapse e w).got_shutdown_requested _ _ (λ stop. h)
      (λ go.
        follow_round-Over (round (elapse e w)) es (round-Settled 0 (elapse e w) h)
          (main_loop-Over es))

close_or_loop-Over :
    (r : Outcome × World) (es : List Meanwhile)
    → Tidy 0 r
    → Over (follow r (λ c. or_close c (main_loop es)))
unfolding close_main
close_or_loop-Over (ret (pos zero), w) es h = main_loop-Over es w h
close_or_loop-Over (ret (pos (suc c)), w) es h = absurd h
close_or_loop-Over (ret (negsuc c), w) es h = tt
close_or_loop-Over (exited e, w) es h = h
close_or_loop-Over (blocked, w) es h = tt

-- What an exit code says: 0 that the process held nothing of the semaphore and the gate any more; the
-- only other code is 1.
abbrev pub Ended : ℤ → Option World → Type 0
Ended (pos zero) none = ⊥
Ended (pos zero) (some w) = (w.locked ≡ false) × (w.tokens ≡ 0)
Ended (pos (suc zero)) s = Unit {0}
Ended (pos (suc (suc e))) s = ⊥
Ended (negsuc e) s = ⊥

abbrev Stops : Client → Stop World → Type 0
Stops first none = Unit {0}
Stops first (some (e, c, s)) = Held first c × Ended e s

worked-Stops :
    (first c : Client) (b : Bool) (r : Outcome × World)
    → Held first c
    → Over r
    → Stops first (Dron.worked b c r)
worked-Stops first c b (ret r, w) held h = absurd h
worked-Stops first c b (exited zero, w) held h = (held, h)
worked-Stops first c b (exited (suc zero), w) held h = (held, tt)
worked-Stops first c b (exited (suc (suc e)), w) held h = absurd h
worked-Stops first c b (blocked, w) held h = tt

module _ (b : Bool) (pid : ℕ) (shared : Shared) (l : Location) (meanwhile : List Meanwhile) where
  started-Stops :
      (first : Client) (o : Option (ℤ × Client))
      → EndsIn (Held first) (Reached first true true true) o
      → Stops first (Dron.started b pid shared l meanwhile o)
  unfolding Dron.work Dron.begin
  started-Stops first none h = tt
  started-Stops first (some (pos k, c)) h =
      worked-Stops first c b (Dron.work meanwhile (Dron.begin pid shared l c)) h.0 (
        close_or_loop-Over (try_adding_self_to_shm (Dron.begin pid shared l c)) meanwhile
          (try_adding-Tidy (Dron.begin pid shared l c) refl))
  started-Stops first (some (negsuc k, c)) h = (h, tt)

  run-Stops : (c : Client) → IsNew c → Stops c (Dron.run b pid shared l meanwhile c)
  unfolding Dron.run
  run-Stops c new = started-Stops c (start_up l c) (start_ups-Held l c new).0

  -- Wherever a drone's `main` calls `close_main` with a descriptor of the gate that is not 0, and
  -- the next four calls succeed: the exit code is 0 or 1, and where it is 0 the process has given
  -- the semaphore and its gate tokens back; the process ends with that code, with no segment
  -- attached and the gate closed, and leaves both segments and the FIFO to the others.
  pub main-Ended :
      (c c1 : Client) (e : ℤ) (s : Option World)
      → IsNew c
      → Dron.run b pid shared l meanwhile c ≡ some (e, c1, s)
      → c1.gate.fifo.file_descriptor ≢ pos 0
      → Succeed 4 c1.answers
      → Ended e s
        × ((c' : Client) × (Dron.main b pid shared l meanwhile c ≡ some (e, c', s)) × Left c c')
  unfolding Dron.main
  main-Ended c c1 e s new at_end n h =
      let (held, ended) = subst (Stops c) at_end (run-Stops c new) in
      let (c', closes, left) = (close_main-Left e c c1 held n h).0 in
      (ended, (c', ap (closed close_client) at_end ∙ ap (noted s) closes, left))
