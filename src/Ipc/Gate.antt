-- ===== src/Ipc/Gate.antt =====
-- `fifo_sem_create`, `fifo_sem_close` and `fifo_sem_destroy` of src/ipc/fifo.c: what becomes of the
-- FIFO in the file system, of the descriptor and of the starting tokens.
pub mod Laws
pub mod Closing
use so_lab_project.Prelude.{
  ℕ, zero, suc, ◌+◌, ◌≡◌, Bool, true, false, List, [], ◌∷◌, Option, none, some, ℤ, pos, negsuc,
  leb_ℤ, leb, length, if◌then◌else◌, pos_part,
}
use so_lab_project.Ipc.{
  Answer, done, interrupted, timed_out, failed, minus_one, attempt, FifoSem, write_tokens,
}

-- The structure and what the system has: the FIFO file, an open descriptor, the tokens in the pipe.
pub record Place : Type 0 where
  pub fifo : FifoSem
  pub exists : Bool
  pub is_open : Bool
  pub tokens : ℕ

abbrev pub Result : Type 0
Result = Option (ℤ × Place × List Answer)

abbrev pub failure : Place → List Answer → Result
failure p answers = some (minus_one, p, answers)

-- `unlink` in an error path.
abbrev pub unlinked : Place → List Answer → Result
unlinked p answers = attempt answers (failure (record p { exists = false })) (failure p)

-- `close`, whose result is not looked at and which gives the descriptor back either way, and `unlink`.
abbrev pub given_up : Place → List Answer → Result
given_up p answers = let next = unlinked (record p { is_open = false }) in attempt answers next next

-- Behind the starting tokens.
abbrev pub with_tokens : ℕ → Place → Option (ℤ × ℕ × List Answer) → Result
with_tokens fd p none = none
with_tokens fd p (some (pos c, k, rest)) = some (
  pos 0,
  record p { tokens = k + p.tokens; fifo = record (p.fifo) { file_descriptor = pos fd } },
  rest,
)
with_tokens fd p (some (negsuc c, k, rest)) = given_up (record p { tokens = k + p.tokens }) rest

-- `fd` is the descriptor that a successful `open` returns. The structure is zeroed before the path
-- is looked at.
unfoldable pub fifo_sem_create : Option (List ℕ) → ℤ → ℕ → Place → List Answer → Result
unfolding write_tokens
fifo_sem_create none capacity fd p answers = failure p answers
fifo_sem_create (some path) capacity fd p answers =
    if leb_ℤ capacity (pos 0)
    then failure p answers
    else (if leb 4096 (length path)
        then failure
            (record p {
              fifo = record { path = []; file_descriptor = minus_one; capacity = capacity };
            })
            answers
        else let q : Place = record p {
          fifo = record { path = path; file_descriptor = minus_one; capacity = capacity };
        } in
          let made : Place = record q { exists = true; tokens = 0 } in
          let opened : Place = record made { is_open = true } in
          attempt answers
            (λ r.
              attempt r
                (λ r.
                  attempt r
                    (λ r.
                      attempt r (λ r. with_tokens fd opened (write_tokens (pos_part capacity) r))
                        (given_up opened))
                    (given_up opened))
                (unlinked made))
            (failure q))

-- `close`, whose result is not looked at, in an error path of `fifo_sem_get`.
abbrev pub closed_again : Place → List Answer → Result
closed_again p answers =
    let back = failure (record p { is_open = false }) in attempt answers back back

-- `is_fifo` is what `S_ISFIFO` says of a file that `stat` found.
unfoldable pub fifo_sem_get : Option (List ℕ) → (is_fifo : Bool) → ℕ → Place → List Answer → Result
fifo_sem_get none is_fifo fd p answers = failure p answers
fifo_sem_get (some path) is_fifo fd p answers =
    if leb 4096 (length path)
    then failure
        (record p {
          fifo = record { path = []; file_descriptor = minus_one; capacity = minus_one };
        })
        answers
    else let q : Place = record p {
      fifo = record { path = path; file_descriptor = minus_one; capacity = minus_one };
    } in
      let opened : Place = record q { is_open = true } in
      let ready : Place = record opened { fifo = record (q.fifo) { file_descriptor = pos fd } } in
      attempt answers
        (λ r.
          if is_fifo
          then attempt r
              (λ r.
                attempt r (λ r. attempt r (λ r. some (pos 0, ready, r)) (closed_again opened))
                  (closed_again opened))
              (failure q)
          else failure q r)
        (failure q)

-- The loop of `fifo_sem_close`.
unfoldable pub close_descriptor : Place → List Answer → Result
close_descriptor p [] = none
close_descriptor p (done ∷ rest) = some (
  pos 0,
  record p { is_open = false; fifo = record (p.fifo) { file_descriptor = minus_one } },
  rest,
)
close_descriptor p (interrupted ∷ rest) = close_descriptor p rest
close_descriptor p (timed_out ∷ rest) = failure p rest
close_descriptor p (failed ∷ rest) = failure p rest

unfoldable pub fifo_sem_close : Place → List Answer → Result
unfolding close_descriptor
fifo_sem_close p answers =
    if leb_ℤ (pos 0) p.fifo.file_descriptor
    then close_descriptor p answers
    else some (pos 0, p, answers)

-- Behind `fifo_sem_close`, whose failure is only reported.
abbrev pub removed : Place → List Answer → Result
removed p answers = elim p.fifo.path [
  | [] ↦ failure p answers
  | c ∷ cs ↦ attempt answers (λ r. some (pos 0, record p { exists = false }, r)) (failure p)
]

abbrev pub after_close : Result → Result
after_close none = none
after_close (some (c, p, rest)) = removed p rest

unfoldable pub fifo_sem_destroy : Place → List Answer → Result
unfolding fifo_sem_close
fifo_sem_destroy p answers = after_close (fifo_sem_close p answers)
