-- ===== src/Printer/Entries.antt =====
-- `setup_print`, `print_msg`, `print_msg_color` and `print_error_impl` of src/utils/printer.c. Texts
-- are their lengths; `vsnprintf` is a parameter, which says how long a format becomes.
use Prim.Native.Nat.{min}
use so_lab_project.Prelude.{
  by_test, ℕ, ◌+◌, ◌-◌, ◌^◌, ◌≤◌, ◌<◌, ◌↔◌, List, [], ◌∷◌, Option, none, some, ℤ, pos, negsuc,
  leb_ℤ, arith,
}
use so_lab_project.Ipc.{Answer}
use so_lab_project.Printer.{
  buffer_size, Line, compose, lock_log_file_for_writing, unlock_log_file, Event, console, locks,
  logs, unlocks, unlock_fails, with_unlock, with_lock, Lengths, print_internal,
}
use so_lab_project.Printer.Bounds.{LineInside, compose-LineInside}

-- `PROCESS_NAME`, `PROCESS_COLOR` and `PROCESS_PID`, as they are printed.
pub record Process : Type 0 where
  pub name : ℕ
  pub color : ℕ
  pub pid : ℕ

unfoldable pub setup_print : (name color pid : ℕ) → Process
setup_print name color pid = record { name = name; color = color; pid = pid }

-- "[%s] [%s (PID=%d)] " with a time of eight characters.
unfoldable pub prefix_length : Process → ℕ
prefix_length p = 21 + p.name + p.pid

-- The lengths of one call of `print_internal`.
unfoldable pub lengths : Process → (color message : ℕ) → Lengths
unfolding prefix_length
lengths p color message = record {
  console_prefix = color + prefix_length p;
  file_prefix = prefix_length p;
  message = message;
}

-- `message` is the length of the message with its arguments.
unfoldable pub print_msg_color :
    Process → ℤ → (color message : ℕ) → List Answer → Option (List Event × List Answer)
unfolding lengths print_internal
print_msg_color p log_file_descriptor color message =
    print_internal log_file_descriptor (lengths p color message)

unfoldable pub print_msg :
    Process → ℤ → (message : ℕ) → List Answer → Option (List Event × List Answer)
unfolding print_msg_color
print_msg p log_file_descriptor message =
    print_internal log_file_descriptor (lengths p p.color message)

-- The length of "%s:%d %s() | %s: %s", which `snprintf` cuts to the buffer.
unfoldable pub format_length : (file line func fmt error : ℕ) → ℕ
format_length file line func fmt error =
    min (file + line + func + fmt + error + 9) (buffer_size - 1)

-- `vsnprintf` says how long the new format becomes with the arguments; `COLOR_RED` has five bytes.
unfoldable pub print_error_impl :
    (vsnprintf : ℕ → ℕ)
    → Process
    → ℤ
    → (file line func fmt error : ℕ) → List Answer
    → Option (List Event × List Answer)
unfolding format_length lengths print_internal
print_error_impl vsnprintf p log_file_descriptor file line func fmt error =
    print_internal log_file_descriptor
      (lengths p 5 (vsnprintf (format_length file line func fmt error)))

-- Every line of the events stays inside its buffer.
abbrev pub AllInside : List Event → Type 0
AllInside [] = Unit {0}
AllInside (console l ∷ events) = LineInside l × AllInside events
AllInside (locks ∷ events) = AllInside events
AllInside (logs l ∷ events) = LineInside l × AllInside events
AllInside (unlocks ∷ events) = AllInside events
AllInside (unlock_fails ∷ events) = AllInside events

-- A call that returns has stayed inside its buffers exactly if this length is not more than the
-- buffer's.
abbrev pub InsideUpTo : ℕ → Option (List Event × List Answer) → Type 0
InsideUpTo n none = Unit {0}
InsideUpTo n (some (events, rest)) = AllInside events ↔ (n ≤ buffer_size)

unlocked :
    (n : ℕ) (events : List Event) (o : Option (ℤ × List Answer))
    → AllInside events ↔ (n ≤ buffer_size)
    → InsideUpTo n (with_unlock events o)
unlocked n events none h = tt
unlocked n events (some (pos c, rest)) h = h
unlocked n events (some (negsuc c, rest)) h = h

locked :
    (n : ℕ) (events : List Event) (line : Line) (o : Option (ℤ × List Answer))
    → AllInside events ↔ (n ≤ buffer_size)
    → (n ≤ buffer_size → LineInside line)
    → InsideUpTo n (with_lock events line o)
locked n events line none h k = tt
locked n events line (some (pos c, rest)) h k =
    unlocked n (logs line ∷ locks ∷ events) (unlock_log_file rest)
      (λ inside. h.0 inside.1, λ short. (k short, h.1 short))
locked n events line (some (negsuc c, rest)) h k = h

print_internal-InsideUpTo :
    (l : Lengths) (fd : ℤ) (answers : List Answer)
    → l.file_prefix ≤ l.console_prefix
    → l.console_prefix + l.message + 5 < 2 ^ 31
    → InsideUpTo (l.console_prefix + l.message) (print_internal fd l answers)
unfolding print_internal
print_internal-InsideUpTo l fd answers shorter small =
    let n = l.console_prefix + l.message in
    let console_line = compose-LineInside l.console_prefix l.message 5 small in
    let file_line = compose-LineInside l.file_prefix l.message 1 (omega (arith, shorter, small)) in
    let shown : AllInside (console (compose l.console_prefix l.message 5) ∷ [])
        ↔ (n ≤ buffer_size) =
      (λ inside. console_line.0 inside.0, λ short. (console_line.1 short, tt)) in
    by_test (InsideUpTo n) (leb_ℤ (pos 0) fd) _ _
      (λ opened.
        locked n _ _ (lock_log_file_for_writing answers) shown
          (λ short. file_line.1 (omega (arith, shorter, short))))
      (λ shut. shown)

-- With lengths of less than 2 ^ 28 bytes, `print_msg` and `print_msg_color` stay inside their
-- buffers, wherever they return, exactly when the colour, the name, the process id and the message
-- have at most 1003 bytes together, and `print_error_impl` exactly when the name, the process id
-- and the message have at most 998; the message of the last is what its new format becomes, however
-- long the texts in it are.
pub entries-InsideUpTo :
    (vsnprintf : ℕ → ℕ) (p : Process) (fd : ℤ) (color message file line func fmt error : ℕ)
    (answers : List Answer)
    → p.name < 2 ^ 28
    → p.pid < 2 ^ 28
    → p.color < 2 ^ 28
    → color < 2 ^ 28
    → message < 2 ^ 28
    → vsnprintf (format_length file line func fmt error) < 2 ^ 28
    → InsideUpTo (p.color + (21 + p.name + p.pid) + message) (print_msg p fd message answers)
      × InsideUpTo
          (color + (21 + p.name + p.pid) + message)
          (print_msg_color p fd color message answers)
      × InsideUpTo
          (5 + (21 + p.name + p.pid) + vsnprintf (format_length file line func fmt error))
          (print_error_impl vsnprintf p fd file line func fmt error answers)
unfolding print_msg print_msg_color print_error_impl lengths prefix_length
entries-InsideUpTo vsnprintf p fd color message file line func fmt error answers h1 h2 h3 h4 h5 h6 =
    (
      print_internal-InsideUpTo (lengths p p.color message) fd answers (omega arith) (omega arith),
      print_internal-InsideUpTo (lengths p color message) fd answers (omega arith) (omega arith),
      print_internal-InsideUpTo (lengths p 5 (vsnprintf (format_length file line func fmt error)))
          fd answers (omega arith) (omega (arith, h6)),
    )
