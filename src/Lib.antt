-- ===== src/Lib.antt =====
-- A model of the mcmp library, its routines and its server, which are written in C, with proofs of
-- what they promise.
--
-- The program's parts. The utilities (utilities/) have bitmaps, plain and atomic, and three queues in
-- arrays. The routines (routines/) have locks and monitors that live in static tables whose slots a
-- bitmap hands out, workers that take tasks from a set queue and mark themselves in an atomic bitmap,
-- pools of threads that a bit each starts and stops, and the loops of signal routines and consumers. The
-- server (server/) receives datagrams, looks at their headers, keeps its clients in slots that a bitmap
-- hands out, and has a heartbeat that looks for clients without a sign of life and a dispatcher that
-- writes to clients. The program (cli/) runs the loop over all of that, in an environment with a log
-- (src/). All of them return the states of include/mcmp/stat.h. The sources spell one prefix in several
-- ways (mcmp, mcmch, MCMP_, MCH_); definitions here leave it out.
--
-- Files and code:
--   Common    names shared by all: C arrays as lists, Boolean tests, size_t addition, signed integers
--   Status    include/mcmp/stat.h; the last state of a thread (mcmpstret) stands beside a result where
--             a caller reads it
--   Bits      the binary digits behind &, |, ~ and the count of trailing zeros
--   Bitmap    utilities/src/common/bitmap.c and atomicbitmap.c: is_enabled_bit, enable_bit and the
--             others are mcmpBitmapIsEnabledBit, mcmpBitmapEnableBit and so on; Word has the loads of 8,
--             4, 2 and 1 bytes; Scan the scans for the next bit; Atomic the atomic attempts on one bit;
--             Walk the loop over the occupied bits that the server's files share
--   Ring      the step of head and tail that the queues share
--   Queue     utilities/src/common/queue.c: create, push, is_empty, is_nonempty
--   ChunkedQueue   utilities/src/common/chunkedqueue.c: create, and push and take as machines of one
--             atomic access a step (push_step, take_step); Threads interleaves any number of them, and
--             Calls has sequences of calls of one thread
--   SetQueue  utilities/src/common/setqueue.c, as machines too, which Threads interleaves; Once says
--             what a thread that nobody disturbs does, Spec is the abstract queue, Calls compares the two,
--             and Overtaken has the steps of threads that overtake each other
--   Layout    the sizes that the create functions ask of malloc, and the macros for the parts of a block
--   Routines.Lock          routines/src/linux/lock.c: create, destroy
--   Routines.Monitor       routines/src/linux/monitor.c: create, start, destroy, handler_loop
--   Routines.MonitorLock   the locks of the same file: acquire, release, try_acquire
--   Routines.Worker        routines/src/linux/worker.c: try_disable, sub, cleanup_loop, beat; Life
--             has create, start and destroy, and Handover one worker and the beats, interleaved
--   Routines.Pool          routines/src/common/pool.c and linux/pool.c: create, link, entry_step for the
--             threads and owner_step for start and destroy
--   Routines.Timer         the deadlines of routine.c and consumer.c: next_frame
--   Routines.SignalRoutine routines/src/linux/routine.c: signal_routine
--   Routines.Routine       the rest of it, and create of routines/src/common/consumer.c: make, link,
--             interrupt, and the calls of pthread on a lock of signals
--   Routines.Consumer      routines/src/common/consumer.c: consumer_loop, pool_loop
--   Server.Dispatch        server/src/common/server.c: process_dgram
--   Server.Update          server/src/linux/server.c: update
--   Server.Handshake       the same file: the handshake, with libsodium as a parameter (Sodium)
--   Server.Sockets         the same file: create and close, as calls of the system
--   Server.Broadcast       server/src/linux/broadcast.c: create, add_client, del_client
--   Server.Clients         server/src/common/clients.c and linux/clients.c: create, add, del, flush and
--             get_bit_index, an earlier form of the broadcast
--   Server.Heartbeat       server/src/common/heartbeat.c: call, process_if_available; Life
--             has the creation and the destruction
--   Server.Dispatcher      server/src/common/dispatcher.c: create, writer_step, owner_turn
--   Environment            src/common/mcmp.c and log.c, src/linux/mcmp.c and log.c
--   Cli                    cli/src/linux/main.c: run_loop; Program has run_server and main around it,
--             Context the signals and the environment that they start with
--   Trials                 utilities/test/test_setqueue.c: main, for any length and indices
-- The modules below these have the proofs, named for what they prove, and Tests has runs and the
-- theorems at concrete inputs.
--
-- State and concurrency. A struct is a record, and an array in it a list. A function that changes a
-- struct returns the new one. Where other threads may write between two accesses of a function, what
-- they leave is an argument: the bitmap at each load of a scan (Memory), and at the load and the
-- exchange of an attempt (Round, Access). The queues are machines whose step is one atomic access, and
-- the weak exchanges of the chunked queue may fail at will. All accesses are taken to be sequentially
-- consistent. What malloc leaves in memory, and what pthread, sigwait and recvfrom answer, are
-- arguments as well.
--
-- Numbers. A size_t wraps at 2 ^ 64 where the code adds, and the scans take lengths below 2 ^ 60, more
-- than any memory has, since a bit index must fit a signed 64-bit integer. Behaviour that C leaves
-- undefined is a value of its own (fault, none, crashed, overrun, undefined).
--
-- Loops. A scan has fuel for one turn more than its length, and its theorems say that it is not used
-- up; nor is that of the worker's loops, which have one turn more than the bitmap has bits. The loops
-- with a number of tries recur on it. Push and take of the queues are followed for as many steps as
-- they need when no exchange fails, which is nine for the set queue. The loops of threads recur on the
-- list of the answers that they get. The loop of the test program has as many turns as its queue has
-- cells, and its theorem says that it ends.
--
-- Components together. A worker's monitor takes from a set queue as Routines.Worker.Tasks runs it; the
-- heartbeat takes the lock of Routines.MonitorLock and walks over the slots of Server.Clients; those,
-- the broadcast, the locks, the monitors and the pool hand out slots of a Bitmap. What depends on two
-- of them is stated over the promises of each.
--
-- Not modelled: the clock and the format of a time, which are single calls of the system; the
-- experiments of cli/ and the tests in test/, which are programs of their own. The type of a client in
-- clients.c is in no header; a client is what the code reads of it. The handler of a beat is not the one
-- in heartbeat.c, and that one passes the address of a field for the broadcast. In the loop of main, signals are what clears its flag.
pub mod Common
pub mod Status
pub mod Bits
pub mod Bitmap
pub mod Ring
pub mod Queue
pub mod ChunkedQueue
pub mod SetQueue
pub mod Routines
pub mod Server
pub mod Environment
pub mod Cli
pub mod Layout
pub mod Trials
