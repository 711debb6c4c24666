-- ===== src/Dron/Stopping.antt =====
-- A drone whose calls succeed and that is told to stop (src/dron/dron.c): its rounds and its loop.
use so_lab_project.Prelude.{
  by_test, ℕ, zero, suc, ◌≡◌, refl, true, List, [], ◌∷◌, ◌++◌, some, pos, negsuc, arith,
}
use so_lab_project.Shm.{is_base, is_mission}
use so_lab_project.Ipc.{Answer, is_open}
use so_lab_project.Ipc.Attempts.{Succeed}
use so_lab_project.Dron.Code.{
  World, Outcome, Code, ret, exited, blocked, follow, return, process_sigusr1, battery_state_check,
  force_base_return, force_leave_base, close_main,
}
use so_lab_project.Dron.Loop.{
  Meanwhile, elapse, main_loop, or_close, or_close_negative, travel, check_and_travel, round,
}
use so_lab_project.Ipc.Works.{more, spare_more, succeeding}
use so_lab_project.Dron.Living.{
  Lively, Ready, process_sigusr1-Lively, battery_state_check-Lively, force_base_return-Lively,
  force_leave_base-Lively, rest-Lively,
}

follow-Lively :
    (q m n : ℕ) (r : Outcome × World) (code : Code)
    → Lively q m r
    → ((w : World) → Ready m w → Lively q n (code w))
    → Lively q n (follow r (λ c. or_close c code))
follow-Lively q m n (ret (pos zero), w) code h f = f w h
follow-Lively q m n (ret (pos (suc c)), w) code h f = absurd h
follow-Lively q m n (ret (negsuc c), w) code h f = absurd h
follow-Lively q m n (exited zero, w) code h f = h
follow-Lively q m n (exited (suc e), w) code h f = absurd h
follow-Lively q m n (blocked, w) code h f = absurd h

back-Lively :
    (q n : ℕ) (r : Outcome × World)
    → Lively q n r
    → Lively q n (follow r (λ c. or_close_negative c (return (pos 0))))
back-Lively q n (ret (pos zero), w) h = h
back-Lively q n (ret (pos (suc c)), w) h = absurd h
back-Lively q n (ret (negsuc c), w) h = absurd h
back-Lively q n (exited zero, w) h = h
back-Lively q n (exited (suc e), w) h = absurd h
back-Lively q n (blocked, w) h = absurd h

module _ (q n : ℕ) (spare : (a : List Answer) → Succeed n a → Succeed q a) where
  travel-Lively : (w : World) → Ready (more 7 n) w → Lively q n (travel w)
  unfolding travel
  travel-Lively w h =
      by_test (Lively q n) (is_mission w.me.location) _ _
        (λ away. back-Lively q n (force_base_return w) (force_base_return-Lively q n spare w h))
        (λ not_away.
          by_test (Lively q n) (is_base w.me.location) _ _
            (λ home. back-Lively q n (force_leave_base w) (force_leave_base-Lively q n spare w h))
            (λ nowhere. rest-Lively q n spare w h))

  check_and_travel-Lively : (w : World) → Ready (more 7 n) w → Lively q n (check_and_travel w)
  unfolding check_and_travel
  check_and_travel-Lively w h =
      follow-Lively q (more 7 n) n (battery_state_check w) travel
        (battery_state_check-Lively q n spare w h) travel-Lively

  round-Lively : (w : World) → Ready (more 7 n) w → Lively q n (round w)
  unfolding round
  round-Lively w h =
      by_test (Lively q n) w.got_sigusr1 _ _
        (λ signalled.
          follow-Lively q (more 7 n) n (process_sigusr1 w) check_and_travel
            (process_sigusr1-Lively q n spare w h) check_and_travel-Lively)
        (λ quiet. check_and_travel-Lively w h)

-- Seven calls for each round, and `q` behind them.
abbrev pub calls : ℕ → List Meanwhile → ℕ
calls q [] = q
calls q (e ∷ es) = more 7 (calls q es)

spare_calls : (q : ℕ) (es : List Meanwhile) (a : List Answer) → Succeed (calls q es) a → Succeed q a
spare_calls q [] a h = h
spare_calls q (e ∷ es) a h = spare_calls q es a (spare_more succeeding 7 (calls q es) a h)

-- The process ended with 0, and `q` more calls succeed.
abbrev pub EndedWell : ℕ → Outcome × World → Type 0
EndedWell q r = (w : World) × (r ≡ (exited 0, w)) × Succeed q w.answers

loop_on :
    (q n : ℕ) (r : Outcome × World) (es : List Meanwhile)
    → Lively q n r
    → ((w : World) → Ready n w → EndedWell q (main_loop es w))
    → EndedWell q (follow r (λ c. main_loop es))
loop_on q n (ret (pos zero), w) es h f = f w h
loop_on q n (ret (pos (suc c)), w) es h f = absurd h
loop_on q n (ret (negsuc c), w) es h f = absurd h
loop_on q n (exited zero, w) es h f = (w, refl, h)
loop_on q n (exited (suc e), w) es h f = absurd h
loop_on q n (blocked, w) es h f = absurd h

-- A drone with an open gate whose calls succeed, seven for each round, and that gets a request to stop
-- after these rounds, ends with exit code 0 within them, whatever its battery does and whichever other
-- signals come; where `q` more calls succeed behind those rounds, `q` calls succeed behind the end.
pub main_loop-EndedWell :
    (q : ℕ) (before after : List Meanwhile) (stop : Meanwhile) (w : World)
    → stop.shutdown ≡ true
    → is_open (some w.gate) ≡ true
    → Succeed (calls q before) w.answers
    → EndedWell q (main_loop (before ++ stop ∷ after) w)
unfolding main_loop close_main
main_loop-EndedWell q [] after stop w s o h =
    by_test (EndedWell q) (elapse stop w).got_shutdown_requested _ _
      (λ asked. (elapse stop w, refl, h)) (λ go. absurd (ground (arith, go, s)))
main_loop-EndedWell q (e ∷ es) after stop w s o h =
    by_test (EndedWell q) (elapse e w).got_shutdown_requested _ _
      (λ asked. (elapse e w, refl, spare_calls q (e ∷ es) w.answers h))
      (λ go.
        loop_on q (calls q es) (round (elapse e w)) (es ++ stop ∷ after)
          (round-Lively q (calls q es) (spare_calls q es) (elapse e w) (h, o))
          (λ v u. main_loop-EndedWell q es after stop v s u.1 u.0))
