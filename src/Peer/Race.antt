-- ===== src/Peer/Race.antt =====
-- Calls that several threads make while the connection fails: the interleavings of `sendCallAsync`,
-- `fail`, `cancelPending` and the reply of a `ResultMessage`
-- (cpp/implementations/plain/rpc_peer.cpp), each cut where it holds neither `m_mu` nor does one
-- atomic access.
use logos_protocol.Base.{
  ℕ, ◌≡◌, true, false, Option, none, some, List, [], ◌∷◌, ◌++◌, nat_eq, lookup, put, keys,
}
use logos_protocol.Peer.{Peer, register_call, take_call, cancel_pending, sweep, init}

-- Where a thread is in `sendCallAsync` for its id: not begun, registered, on the branch of a peer
-- that it saw stopped or running, and returned from either.
pub data Phase : Type 0 where
  fresh : Phase
  registered : Phase
  saw_stopped : Phase
  saw_running : Phase
  reclaimed : Phase
  emitted : Phase

-- Where `fail` is: not begun, past its compare-and-exchange, past its sweep.
pub data Failing : Type 0 where
  running : Failing
  flagged : Failing
  swept : Failing

-- The peer, the phase of the call of each id (`fresh` for an id that is not listed), `fail`, and the
-- ids whose handler was extracted to be answered, or was withdrawn by `cancelPending`.
pub record System : Type 0 where
  pub peer : Peer
  pub phases : List (ℕ × Phase)
  pub failing : Failing
  pub settled : List ℕ

abbrev pub or_fresh : Option Phase → Phase
or_fresh none = fresh
or_fresh (some f) = f

unfoldable pub phase_of : ℕ → System → Phase
phase_of id s = or_fresh (lookup id s.phases)

-- The ids that an extraction settles.
abbrev pub settles : ℕ → Option ℕ → List ℕ
settles id none = []
settles id (some h) = id ∷ []

unfoldable pub move_to : ℕ → Phase → System → System
move_to id f s = record s { phases = put id f s.phases }

-- Extract the handler of an id, if it is there.
unfoldable pub extract : ℕ → System → System
extract id s = record s {
  peer = (take_call id s.peer).1;
  settled = settles id (take_call id s.peer).0 ++ s.settled;
}

pub data Step : System → System → Type 0 where
  -- sendCallAsync: register under the lock
  register :
      (s : System) (id h : ℕ)
      → phase_of id s ≡ fresh
      → Step s (move_to id registered (record s { peer = register_call id h s.peer }))
  -- sendCallAsync: the second reading of `m_stopped`
  reread_stopped :
      (s : System) (id : ℕ)
      → phase_of id s ≡ registered
      → s.peer.stopped ≡ true
      → Step s (move_to id saw_stopped s)
  reread_running :
      (s : System) (id : ℕ)
      → phase_of id s ≡ registered
      → s.peer.stopped ≡ false
      → Step s (move_to id saw_running s)
  -- sendCallAsync: take back the registration and answer
  reclaim :
      (s : System) (id : ℕ)
      → phase_of id s ≡ saw_stopped
      → Step s (move_to id reclaimed (extract id s))
  -- sendCallAsync: emitMessage
  emit : (s : System) (id : ℕ) → phase_of id s ≡ saw_running → Step s (move_to id emitted s)
  -- fail: the compare-and-exchange on `m_stopped`, which one caller wins
  flag :
      (s : System)
      → s.peer.stopped ≡ false
      → Step s (record s { peer = record s.peer { stopped = true }; failing = flagged })
  -- fail: swap the maps under the lock, and answer what they held
  sweep_all :
      (s : System)
      → s.failing ≡ flagged
      → Step s (record s {
        peer = sweep s.peer;
        failing = swept;
        settled = keys s.peer.pending_calls ++ s.settled;
      })
  -- dispatchIncoming of a ResultMessage with this id
  reply : (s : System) (id : ℕ) → Step s (extract id s)
  -- cancelPending: the caller has its answer already
  cancel :
      (s : System) (id : ℕ)
      → Step s (record s {
        peer = cancel_pending id s.peer;
        settled = settles id (take_call id s.peer).0 ++ s.settled;
      })

pub data Reach (s : System) : System → Type 0 where
  here : Reach s s
  next : {t u : System} → Reach s t → Step t u → Reach s u

abbrev pub start : System
start = record { peer = init true; phases = []; failing = running; settled = [] }

-- One for an id whose call has registered.
abbrev pub begun : Phase → ℕ
begun fresh = 0
begun registered = 1
begun saw_stopped = 1
begun saw_running = 1
begun reclaimed = 1
begun emitted = 1
