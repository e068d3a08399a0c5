-- ===== src/Lib.antt =====
-- The home banking system: a server of bank offices, and users that send it requests over named
-- pipes.
--
-- The parts. A user's program (user_f/user.c) checks its arguments (user_f/user_parse.c), builds a
-- request (shared/com_protocol.c), writes it to the server's FIFO, and waits for the reply on its
-- own, at most until an alarm. The server's main thread (server_f/server.c) makes the accounts and
-- the offices, and puts the requests that come on a queue (shared/queue.c); each office, a thread,
-- takes one, runs its handler (server_f/requests.c), which works on the array of accounts under the
-- accounts' mutexes (server_f/sync.c) and logs what it does (server_f/sync_log.c, shared/log.c), and
-- writes the reply to the user's FIFO. Passwords are kept as salted hashes (shared/crypto.c,
-- shared/account_utilities.c). A request for a shutdown closes the bank; the main thread then wakes
-- the offices, which leave.
--
-- The files.
--   Types        shared/types.h, shared/constants.h
--   Os           what the code asks of the C library and POSIX, as calls (Os/Calls); programs that
--                make them (Os/Programs); a run of one thread alone (Os/Run)
--   Shared       Accounts: account_utilities.c; Crypto: crypto.c; Log: log.c; Queue: queue.c;
--                Utilities: utilities.c; Protocol: com_protocol.c (requests, replies, the bytes of
--                both, the FIFO's name, the server's reads)
--   Server       SyncLog: sync_log.c; Sync: sync.c; Offices: active_offices.c; Requests: requests.c;
--                Parse: server_parse.c; Office and Main: the offices and `main` of server.c;
--                Threads: both of them beside each other, call by call; Pool: the same in larger
--                steps, with what the queue and the semaphores hold; Paths: rules for all paths
--                through a program
--   User         Parse: user_parse.c; Arguments: the start of `main` in user.c; Process: the rest of
--                it, with the exits and the handler of the alarm
--   Sample       a small bank for the tests and the instances of theorems
-- A file's children hold its lemmas, named for what they prove. Functions keep their names; `min` and
-- `max` stand with the handlers.
--
-- A C function that calls the system is a program (`Prog`): a tree of calls, each with what comes
-- after every answer. There are two readings. `run` gives a thread alone a state (`Sys`) and an
-- environment (`Env`): which calls fail, what `rand` and uninitialised arrays hold, what `sha256sum`
-- prints. `reliable env` is the same without failing calls. `Follows` looks at all paths at once,
-- with any answer that `Can` allows, so it also speaks of a thread beside others.
--
-- Threads. In Server/Threads a state is what is left of each thread's program, with the mutexes that
-- it holds; a step is one call of one thread, with an answer that `Can` allows, where a mutex is
-- given only while no thread holds it. Server/Pool looks at the protocol between the main thread and
-- the offices alone: its steps are a wait or a post of a semaphore and a critical section on the
-- queue. A section is one step since the queue is used only under its mutex, which a theorem on
-- Server/Threads states. The user's process is a step relation on the places of `main` and of the
-- exits, for the alarm can come between any two of them.
--
-- Representation. A `uint32_t` is a number with `% 2 ^ 32` where the code computes; an `int` is ℤ.
-- The two arrays of an account are raw memory of 65 and 67 bytes: the salt's array and the two bytes
-- of padding behind it, since `gen_salt` writes one byte past the array. The union of a request is
-- the words that its members share. A hash is what `sha256sum` prints, cut to 64 bytes; the one thing
-- asked of it is that it prints 64 digits (`IsDigest`). A write or a read outside of an object is
-- `undefined`, or `none` in a function that returns an Option. What `write`, `read` and `malloc`
-- answer to the messages and the queue is a parameter. The server's `read_request` stands twice: over
-- the bytes of a pipe (Shared/Protocol/Bytes) and as the three calls of `read` that the main thread
-- makes into memory from `malloc`, which may be NULL (Shared/Protocol/Pipe); a length beyond the memory
-- is undefined in both. A call that prints a line of the log keeps
-- the line as the values that it shows; Shared/Log/Text makes the text of them.
--
-- Fuel. The search for the last node of a queue and the loop of `empty_queue` run on fuel, one round
-- more than there are nodes; the theorems give that much. The digits of `%x` have 8 rounds and those
-- of `%d` and `%u` have 10, enough for 32 bits; those of `%lu` have 20, enough for 64; and
-- `parse_req_args` has its four. The loops of the main thread and of an office have no bound, since
-- they go on until a user asks for a shutdown: they are programs of a number of rounds that also
-- say whether they have ended, and what is shown of their paths holds for every number. All other
-- loops are structural.
--
-- Not modelled: messages to stderr, the seed of `rand`, and the release of memory at the end of the
-- programs; `concat`, which nothing calls; shared/sope.h, which only declares what shared/log.c
-- defines.
pub mod Base
pub mod Types
pub mod Os
pub mod Shared
pub mod Server
pub mod User
pub mod Sample
