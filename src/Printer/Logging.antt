-- ===== src/Printer/Logging.antt =====
-- The log file is written under its lock only (src/utils/printer.c).
use so_lab_project.Prelude.{
  by_test, ◌<◌, ◌≡◌, refl, Bool, true, false, List, [], ◌∷◌, Option, none, some, ℤ, pos, negsuc,
  leb_ℤ,
}
use so_lab_project.Ipc.{Answer}
use so_lab_project.Printer.{
  Line, Event, console, locks, logs, unlocks, unlock_fails, Lengths, buffer_size,
  lock_log_file_for_writing, unlock_log_file, with_lock, with_unlock, print_internal,
}
use so_lab_project.Printer.Bounds.{compose-sent}

-- Whether the lock is held after the events, the last of which comes first.
abbrev pub locked_after : List Event → Bool
locked_after [] = false
locked_after (console l ∷ events) = locked_after events
locked_after (logs l ∷ events) = locked_after events
locked_after (locks ∷ events) = true
locked_after (unlocks ∷ events) = false
locked_after (unlock_fails ∷ events) = locked_after events

-- Every line is logged with the lock held, and every line that is sent fits the buffer.
abbrev pub Disciplined : List Event → Type 0
Disciplined [] = Unit {0}
Disciplined (console l ∷ events) = (l.sent < buffer_size) × Disciplined events
Disciplined (logs l ∷ events) =
    (l.sent < buffer_size) × (locked_after events ≡ true) × Disciplined events
Disciplined (locks ∷ events) = (locked_after events ≡ false) × Disciplined events
Disciplined (unlocks ∷ events) = (locked_after events ≡ true) × Disciplined events
Disciplined (unlock_fails ∷ events) = (locked_after events ≡ true) × Disciplined events

-- In the end the lock is not held, unless a call that should have given it back failed.
abbrev pub Released : List Event → Type 0
Released [] = ⊥
Released (console l ∷ events) = locked_after events ≡ false
Released (logs l ∷ events) = ⊥
Released (locks ∷ events) = ⊥
Released (unlocks ∷ events) = Unit {0}
Released (unlock_fails ∷ events) = Unit {0}

-- What a call of `print_internal` that does not wait has done.
abbrev pub Logs : Option (List Event × List Answer) → Type 0
Logs none = Unit {0}
Logs (some (events, rest)) = Disciplined events × Released events

with_unlock-Logs :
    (events : List Event) (o : Option (ℤ × List Answer))
    → locked_after events ≡ true
    → Disciplined events
    → Logs (with_unlock events o)
with_unlock-Logs events none l h = tt
with_unlock-Logs events (some (pos c, rest)) l h = ((l, h), tt)
with_unlock-Logs events (some (negsuc c, rest)) l h = ((l, h), tt)

with_lock-Logs :
    (shown line : Line) (o : Option (ℤ × List Answer))
    → shown.sent < buffer_size
    → line.sent < buffer_size
    → Logs (with_lock (console shown ∷ []) line o)
with_lock-Logs shown line none h h' = tt
with_lock-Logs shown line (some (pos c, rest)) h h' =
    with_unlock-Logs (logs line ∷ locks ∷ console shown ∷ []) (unlock_log_file rest) refl
      (h', refl, (refl, (h, tt)))
with_lock-Logs shown line (some (negsuc c, rest)) h h' = ((h, tt), refl)

-- However the system answers, `print_internal` logs a line only while it holds the lock of the log
-- file, takes the lock only when it does not hold it, and sends at most 1023 bytes of each line.
-- Where it returns, it has called `unlock_log_file` behind the line that it logged, and holds the
-- lock only if that call failed.
pub print_internal-Logs :
    (log_file_descriptor : ℤ) (l : Lengths) (answers : List Answer)
    → Logs (print_internal log_file_descriptor l answers)
unfolding print_internal
print_internal-Logs fd l answers =
    by_test Logs (leb_ℤ (pos 0) fd) _ _
      (λ opened.
        with_lock-Logs _ _ (lock_log_file_for_writing answers)
          (compose-sent l.console_prefix l.message 5).0 (compose-sent l.file_prefix l.message 1).0)
      (λ shut. (((compose-sent l.console_prefix l.message 5).0, tt), refl))
