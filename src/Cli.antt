-- ===== src/Cli.antt =====
-- cli/src/linux/main.c: the loop of the server program, which waits for events, beats the heart of the
-- server at intervals, lets the heartbeat drop clients, and hands the events to the server.
pub mod Laws
pub mod Context
pub mod Program
mod Tests
use mcmp.Common.{
  ℕ, zero, suc, ◌+◌, ◌%◌, ◌^◌, Bool, true, false, List, [], ◌∷◌, ltb, ◌==◌, if◌then◌else◌,
}

-- `BEAT_TICK`, and `MONARCH_MAX_EVENTS_EPOLL` of server.c: the events that the server has room for
abbrev pub beat_tick : ℕ
beat_tick = 150

abbrev pub max_events_epoll : ℕ
max_events_epoll = 8

-- What `epoll_wait` returns: -1 with EINTR or with another error, or a number of events.
pub data Wait : Type 0 where
  interrupted : Wait
  broken : Wait
  ready : (nfds : ℕ) → Wait

-- One turn: the flag `server_running` is 0 at the head of the loop, or `epoll_wait` answers.
pub data Turn : Type 0 where
  told : Turn
  waited : Wait → Turn

-- The calls of the loop: mcmchHeartbeatBeat, mcmchHeartbeatProcessIfAvaible and mcmchServerUpdate.
pub data Act : Type 0 where
  beat : Act
  process : Act
  update : (nfds : ℕ) → Act

-- `overrun` is an answer of more events than the server has room for: epoll_wait is told of 10.
pub data Ending : Type 0 where
  stopped failed overrun waiting : Ending

-- A turn with events, and then the others.
abbrev pub served : (beatick nfds : ℕ) → List Act × Ending → List Act × Ending
served beatick nfds (acts, ending) =
    let calls = process ∷ update nfds ∷ acts in
    (if beatick % beat_tick == 0 then beat ∷ calls else calls, ending)

-- The loop of `run_server`; after the last turn it waits.
unfoldable pub run_loop : (beatick : ℕ) → List Turn → List Act × Ending
run_loop beatick [] = ([], waiting)
run_loop beatick (told ∷ turns) = ([], stopped)
run_loop beatick (waited interrupted ∷ turns) = run_loop beatick turns
run_loop beatick (waited broken ∷ turns) = ([], failed)
run_loop beatick (waited (ready nfds) ∷ turns) =
    let next = (beatick + 1) % 2 ^ 64 in
    let rest = run_loop next turns in
    if ltb max_events_epoll nfds then ([], overrun) else served next nfds rest
