-- ===== src/Programs/Success.antt =====
-- A drone from its start to its end when no call fails (src/dron/dron.c).
use so_lab_project.Prelude.{
  ℕ, ◌≡◌, ◌≢◌, ap, ◌∙◌, Bool, true, false, List, ◌∷◌, ◌++◌, some, pos, replicate, leb_ℤ,
}
use so_lab_project.Shm.{Location}
use so_lab_project.Ipc.{Answer, done, is_open}
use so_lab_project.Ipc.Attempts.{Succeed}
use so_lab_project.Dron.{Shared, placed, register}
use so_lab_project.Dron.Code.{World, Outcome, exited, follow}
use so_lab_project.Dron.Loop.{Meanwhile, main_loop, register_self, try_adding_self_to_shm, or_close}
use so_lab_project.Dron.Starting.{initial_internal_data, initial_local_data}
use so_lab_project.Ipc.Works.{more}
use so_lab_project.Dron.Living.{lock_works, unlock_works}
use so_lab_project.Dron.Stopping.{calls, EndedWell, main_loop-EndedWell}
use so_lab_project.Client.{Client, heard}
use so_lab_project.Client.Holding.{IsNew, not_negative}
use so_lab_project.Client.Success.{drone_starts}
use so_lab_project.Client.Leaving.{Left}
use so_lab_project.Programs.Dron
use so_lab_project.Programs.Ends.{main-Ended}

module _ (before after : List Meanwhile) (stop : Meanwhile) (asked : stop.shutdown ≡ true) where
  -- The registration takes two calls.
  work-EndedWell :
      (w : World) (i id : ℕ) (sh : Shared)
      → register w.shared w.local_data ≡ placed i id sh
      → is_open (some w.gate) ≡ true
      → Succeed (more 2 (calls 4 before)) w.answers
      → EndedWell 4 (Dron.work (before ++ stop ∷ after) w)
  unfolding Dron.work try_adding_self_to_shm register_self
  work-EndedWell w i id sh room o h =
      let es : List Meanwhile = before ++ stop ∷ after in
      let P : Outcome × World → Type 0 =
        λ r. EndedWell 4 (follow r (λ c. or_close c (main_loop es))) in
      lock_works P (more 1 (calls 4 before)) _ w (h, o)
        λ r s. rw room (
          unlock_works P (calls 4 before) _ _ (s, o)
            λ t u. main_loop-EndedWell 4 before after stop _ asked o u)

  module _ (b : Bool) (pid : ℕ) (shared : Shared) (l : Location) (c : Client) where
    -- `main` comes to `close_main` with exit code 0, the gate has the descriptor that `open` gave,
    -- and four more calls succeed.
    pub run-Succeeds :
        (i id : ℕ) (sh : Shared) (r : List Answer)
        → c.is_fifo ≡ true
        → register shared (initial_local_data (initial_internal_data c.stored l).0 l pid)
          ≡ placed i id sh
        → Succeed (more 2 (calls 4 before)) r
        → (d : Client) × (w : World) × (Dron.run b pid shared l
              (before ++ stop ∷ after)
              (heard c (replicate 32 done ++ r))
            ≡ some (pos 0, d, some w))
          × (d.gate.fifo.file_descriptor ≡ pos c.descriptor)
          × Succeed 4 d.answers
    unfolding Dron.run Dron.begin is_open initial_local_data
    run-Succeeds i id sh r fifo room h =
        let (d, starts, data_, on, open_, back) = drone_starts l c r fifo in
        let es : List Meanwhile = before ++ stop ∷ after in
        let up : is_open (some d.gate.fifo) ≡ true =
          ap (leb_ℤ (pos 0)) open_ ∙ not_negative c.descriptor in
        let known : register shared (Dron.begin pid shared l d).local_data ≡ placed i id sh =
          ap (λ m. register shared (initial_local_data (Dron.or_unset m).0 l pid)) data_ ∙ room in
        let (w, ends, s) = work-EndedWell (Dron.begin pid shared l d) i id sh known up (rw on h) in
        let at_end : Dron.run b pid shared l es (heard c (replicate 32 done ++ r))
            ≡ Dron.worked b d (exited 0, w) =
          ap (Dron.started b pid shared l es) starts ∙ ap (Dron.worked b d) ends in
        (record d { answers = w.answers; battery_working = b }, w, at_end, open_, s)

    -- A drone that finds a FIFO at the path of the gate and gets a descriptor that is not 0, that
    -- the shared memory has a place for, whose calls succeed (32 for the start, two for the
    -- registration, seven for each round, four for the end), and that gets a request to stop after
    -- these rounds, ends with exit code 0: it holds neither the semaphore nor a token of the gate,
    -- no segment is attached and the gate is closed.
    pub dron_main-Succeeds :
        (i id : ℕ) (sh : Shared) (r : List Answer)
        → IsNew c
        → c.is_fifo ≡ true
        → c.descriptor ≢ 0
        → register shared (initial_local_data (initial_internal_data c.stored l).0 l pid)
          ≡ placed i id sh
        → Succeed (more 2 (calls 4 before)) r
        → (c' : Client) × (w : World) × (Dron.main b pid shared l
              (before ++ stop ∷ after)
              (heard c (replicate 32 done ++ r))
            ≡ some (pos 0, c', some w))
          × (w.locked ≡ false)
          × (w.tokens ≡ 0)
          × Left c c'
    dron_main-Succeeds i id sh r new fifo n room h =
        let (d, w, at_end, open_, s) = run-Succeeds i id sh r fifo room h in
        let (ended, end_) =
          main-Ended b pid shared l (before ++ stop ∷ after) (heard c (replicate 32 done ++ r)) d
            (pos 0) (some w) new at_end (λ e. n (cc)) s in
        let (c', closes, left) = end_ in (c', w, closes, ended.0, ended.1, left)
