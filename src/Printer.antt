-- ===== src/Printer.antt =====
-- src/utils/printer.c: the line that a message becomes, byte range by byte range, and the log file
-- under its lock. The lengths are those that the formats ask for: `snprintf` stores as much of them as
-- its size argument allows, with a NUL behind it, and returns the full length.
pub mod Bounds
pub mod Logging
pub mod Entries
use Prim.Native.Nat.{min}
use so_lab_project.Prelude.{
  ℕ, ◌+◌, ◌-◌, ◌%◌, ◌^◌, ◌≤◌, ◌≡◌, ◌⊎◌, Bool, true, false, List, [], ◌∷◌, Option, none, some, ℤ,
  pos, negsuc, leb, leb_ℤ, ◌==◌, if◌then◌else◌,
}
use so_lab_project.Ipc.{Answer, done, interrupted, timed_out, failed, minus_one}

abbrev pub buffer_size : ℕ
buffer_size = 1024

-- A range of bytes that a call stores, counted from the start of the buffer.
pub record Range : Type 0 where
  pub from : ℕ
  pub bytes : ℕ

-- `BUFFER_SIZE - position`, an `int`, as the `size_t` argument of the next call.
unfoldable pub size_left : ℕ → ℕ
size_left position = (buffer_size + 2 ^ 64 - position) % 2 ^ 64

-- What `snprintf` with a text of this length stores at a position.
unfoldable pub stored : (position length size : ℕ) → Range
stored position length size = record {
  from = position;
  bytes = if size == 0 then 0 else min length (size - 1) + 1;
}

-- The last adjustment of the position, which is the number of bytes that `write` sends.
unfoldable pub clamp : ℕ → ℕ
clamp position = if leb buffer_size position then buffer_size - 1 else position

-- What the three calls store for a prefix, a message and an end, and what is sent then. The console
-- line and the log line are made alike.
pub record Line : Type 0 where
  pub prefix : Range
  pub message : Range
  pub ending : Range
  pub sent : ℕ

unfoldable pub compose : (prefix message ending : ℕ) → Line
unfolding size_left stored clamp
compose prefix message ending = record {
  prefix = stored 0 prefix buffer_size;
  message = stored prefix message (size_left prefix);
  ending = stored (prefix + message) ending (size_left (prefix + message));
  sent = clamp (prefix + message + ending);
}

-- `lock_log_file_for_writing` and `unlock_log_file`.
unfoldable pub lock_log_file_for_writing : List Answer → Option (ℤ × List Answer)
lock_log_file_for_writing [] = none
lock_log_file_for_writing (done ∷ rest) = some (pos 0, rest)
lock_log_file_for_writing (interrupted ∷ rest) = lock_log_file_for_writing rest
lock_log_file_for_writing (timed_out ∷ rest) = some (minus_one, rest)
lock_log_file_for_writing (failed ∷ rest) = some (minus_one, rest)

unfoldable pub unlock_log_file : List Answer → Option (ℤ × List Answer)
unlock_log_file [] = none
unlock_log_file (done ∷ rest) = some (pos 0, rest)
unlock_log_file (interrupted ∷ rest) = unlock_log_file rest
unlock_log_file (timed_out ∷ rest) = some (minus_one, rest)
unlock_log_file (failed ∷ rest) = some (minus_one, rest)

-- What a process does for a message, in order.
pub data Event : Type 0 where
  console : Line → Event
  locks : Event
  logs : Line → Event
  unlocks : Event
  unlock_fails : Event

-- The result of `unlock_log_file` is not looked at; when it fails the lock is still held.
abbrev pub with_unlock : List Event → Option (ℤ × List Answer) → Option (List Event × List Answer)
with_unlock events none = none
with_unlock events (some (pos c, rest)) = some (unlocks ∷ events, rest)
with_unlock events (some (negsuc c, rest)) = some (unlock_fails ∷ events, rest)

-- Nothing is logged without the lock.
abbrev pub with_lock :
    List Event → Line → Option (ℤ × List Answer) → Option (List Event × List Answer)
with_lock events line none = none
with_lock events line (some (pos c, rest)) =
    with_unlock (logs line ∷ locks ∷ events) (unlock_log_file rest)
with_lock events line (some (negsuc c, rest)) = some (events, rest)

-- The lengths of one message: its two prefixes, itself, and the two ends.
pub record Lengths : Type 0 where
  pub console_prefix : ℕ
  pub file_prefix : ℕ
  pub message : ℕ

-- `print_internal`; the last event comes first. The console line ends with the reset sequence, and
-- both with a line feed.
unfoldable pub print_internal :
    (log_file_descriptor : ℤ) → Lengths → List Answer → Option (List Event × List Answer)
unfolding lock_log_file_for_writing unlock_log_file
print_internal log_file_descriptor l answers =
    let shown : List Event = console (compose l.console_prefix l.message 5) ∷ [] in
    if leb_ℤ (pos 0) log_file_descriptor
    then with_lock shown (compose l.file_prefix l.message 1) (lock_log_file_for_writing answers)
    else some (shown, answers)

-- `global_logger_initialize` and `logger_initialize`: the descriptor and the result, for the result of
-- `open`. They differ in what they do without a path.
unfoldable pub global_logger_initialize : Bool → ℤ → ℤ → ℤ × ℤ
global_logger_initialize false opened descriptor = (descriptor, minus_one)
global_logger_initialize true opened descriptor =
    (opened, (if leb_ℤ (pos 0) opened then pos 0 else minus_one))

unfoldable pub logger_initialize : Bool → ℤ → ℤ → ℤ × ℤ
logger_initialize false opened descriptor = (descriptor, pos 0)
logger_initialize true opened descriptor =
    (opened, (if leb_ℤ (pos 0) opened then pos 0 else minus_one))

-- The descriptor after `logger_shutdown`.
unfoldable pub logger_shutdown : ℤ → ℤ
logger_shutdown descriptor = if leb_ℤ (pos 0) descriptor then minus_one else descriptor
