-- ===== src/Lib.antt =====
-- A swarm of drones (src/main.c, src/dron/, src/operator/, src/system_commander/, src/ipc/,
-- src/data_structures/): processes that share one memory segment and a stack of free slots under one
-- System V semaphore, and a gate of two tokens in a FIFO. The main process parses its arguments, lays
-- out the shared memory and starts the operator and the commander. The operator forks drones while
-- the base has room, and moves the limit of the base on SIGUSR1 and SIGUSR2. A drone takes a slot,
-- flies until its battery is low, reserves a place in the base, passes the gate, charges and leaves.
-- The commander asks for more drones, asks drones to end, and lowers the limit.
--
-- Files:
--   Prelude   tests on numbers, lists over the native numbers, and C's signed integers
--   Stack     src/data_structures/stack.c: `push_elem` is `Stack_push` behind its NULL guard, and so on
--   Ipc       src/ipc/semaphore.c and src/ipc/fifo.c over the answers of the system calls; Ipc/Gate is
--             the life of the FIFO, Ipc/Objects the wrappers on segments, semaphores and keys
--             (src/ipc/shm.c, src/ipc/semaphore.c, src/ipc/key.c), Ipc/Acts and Ipc/Attempts how
--             calls are chained
--   Shm       the structures of src/ipc/ipc.h and the operations of src/ipc/shm.c: `add_dron` is
--             `SHM_AllDronesData_add_dron`, and so on
--   Dron      src/dron/dron.c: the critical sections as functions on the shared memory (Dron), the C
--             functions with their error paths (Dron/Code), the loop, the registration and the
--             battery (Dron/Loop), its first data (Dron/Starting), and what becomes of a drone whose calls
--             succeed (Dron/Living, Dron/Stopping)
--   Operator  the limit (Operator) and the loop (Operator/Loop) of src/operator/operator.c
--   Commander src/system_commander/system_commander.c
--   Client    how a drone, the operator and the commander find the shared objects, attach to them and
--             leave them: `Client.Dron.start_up` is `main` of src/dron/dron.c up to the battery thread,
--             `Client.Dron.close_main` its `close_main`, and so on
--   Programs  the whole `main` of a drone, of the operator and of the commander: the start of Client,
--             the work of Dron, Operator and Commander, and `close_main`
--   Setup     src/main.c: `process_argv` and the contents that `create_shm_all_drones_data` writes
--   Main      src/main.c: the report (Main), the objects and children of the set-up (Main/Launch),
--             `close_main` and `main` (Main/Closing)
--   Printer   src/utils/printer.c: the byte ranges of a line, the log file and its lock, `print_msg`
--             and the other entries (Printer/Entries)
--   System    the processes together: a step relation whose steps are the critical sections of
--             src/dron/dron.c and the operator's changes, with reachability from the set-up;
--             System/Traces keeps what a run did at the gate, to the limit and in creating drones, with
--             which System/Refinement and System/Staffing tie the C functions to it; System/Semaphore is
--             `semaphore_lock` and `semaphore_unlock` between processes that write one assignment at a
--             time and may die, over a semaphore that semop(2) describes
--   Tests     concrete runs
--
-- How the code is modelled. System calls are answers that the functions read in order, so every
-- error path is there; a function whose answers run out waits (`none`, `blocked`). What `getopt` and
-- `strtol` deliver are arguments. Counters are signed and do not wrap: in C their overflow is
-- undefined, and they are bounded by the 2500000 slots that `process_argv` allows. Sizes wrap at 2 ^
-- 64. The loop that fills the stack runs on fuel, one more than its capacity, which is enough. Every
-- other loop is recursion on the answers, on the list of what happens meanwhile, or on the number of
-- repeats.
--
-- The step relation allows more than the code: battery levels, timeouts and signals may take any
-- course. A drone that stops on a shutdown request keeps its slot and its reservation. A failing
-- system call or a death by another signal in the middle of a round is not a step there. That a
-- critical section is one step of it rests on System/Semaphore, where sections are made of single
-- writes, a process may die between any two, and the semaphore of the system is a parameter with the
-- documented behaviour of `semop` and SEM_UNDO.
--
-- An object of the system stands for its key: that two programs use the same key for it is not part
-- of the model. A segment counts the attachments of the one process that the function is about. A
-- start-up is modelled call by call; what a program does between its start-up and its end does not
-- touch the variables that its end reads. What the segments hold when a program has started is an
-- argument of its `main` in Programs, and the argument of the command line has been read before it.
-- That all calls succeed bounds the number of retries; it says nothing of how long a call takes.
--
-- Not modelled: the moment at which a signal handler sets its flag within a round, that a child of
-- the main process or of the operator becomes one of the other programs, the texts of messages, of
-- which src/utils/printer.c is modelled by their lengths, the print-outs of configurations, the load
-- test (src/tests/) and real time.
pub mod Prelude
pub mod Stack
pub mod Ipc
pub mod Shm
pub mod Dron
pub mod Operator
pub mod Commander
pub mod Printer
pub mod Client
pub mod Programs
pub mod Main
pub mod Setup
pub mod System
pub mod Tests
