-- ===== src/Agent/Supervise.antt =====
-- crates/bigtop-agent/src/lib.rs: how a running task is supervised. Its output comes to `supervise`
-- over one channel; what the loop's `select!` yields is a list of events. `Life` is the part of
-- `execute_task` behind a successful boot, as far as it says who holds a sender of which channel.
pub mod Batches
pub mod Ends
use bigtop.Common.{
  ℕ, zero, suc, Bool, true, false, List, [], ◌∷◌, ◌++◌, String, length, leb, if◌then◌else◌, ◌≡◌,
}

-- ---------------------------------------------------------------- supervise

pub data Event : Type 0 where
  line : String → Event
  tick : Event
  closed : Event

-- `flush_logs`: the batch that is pushed, if there are lines.
unfoldable pub flush : List String → List (List String) → List (List String)
flush [] rest = rest
flush (l ∷ lines) rest = (l ∷ lines) ∷ rest

-- The loop with the lines that are pending: the batches that it pushes. The list of the events ends
-- where the task is still supervised.
unfoldable pub supervise : List Event → List String → List (List String)
unfolding flush
supervise [] pending = []
supervise (Event.closed ∷ events) pending = flush pending []
supervise (Event.tick ∷ events) pending = flush pending (supervise events [])
supervise (Event.line l ∷ events) pending =
    let full = supervise events [] in
    let more = supervise events (pending ++ l ∷ []) in
    if leb 50 (length (pending ++ l ∷ [])) then flush (pending ++ l ∷ []) full else more

-- ---------------------------------------------------------------- execute_task

pub data Phase : Type 0 where
  supervising exited reported finished : Phase

-- `hub`: the hub holds the sender of the task's vsock channel; `connections`: the guest's connections,
-- each with a clone of it; `forwarder`, `stdout`, `stderr`: the tasks that hold a sender of the log
-- channel.
pub record Life : Type 0 where
  pub hub : Bool
  pub connections : ℕ
  pub forwarder : Bool
  pub stdout : Bool
  pub stderr : Bool
  pub phase : Phase

-- Behind the start of `supervise`, with or without a vsock channel; `supervise` has dropped its own
-- sender.
unfoldable pub begun : Bool → Life
begun vsock = record {
  hub = vsock;
  connections = 0;
  forwarder = vsock;
  stdout = true;
  stderr = true;
  phase = Phase.supervising;
}

pub data Step (l : Life) : Life → Type 0 where
  -- `handle_connection` takes a clone from the hub, and drops it when it returns.
  dialed : l.hub ≡ true → Step l (record l { connections = suc l.connections })
  hung_up : (n : ℕ) → l.connections ≡ suc n → Step l (record l { connections = n })
  -- A pump ends with its pipe.
  stdout_ended : Step l (record l { stdout = false })
  stderr_ended : Step l (record l { stderr = false })
  -- `vrx.recv()` returns `None`: no sender of the vsock channel is left.
  forwarder_ended : l.hub ≡ false → l.connections ≡ 0 → Step l (record l { forwarder = false })
  -- `rx.recv()` returns `None`: no sender of the log channel is left. Then the child is waited for.
  drained :
      l.phase ≡ Phase.supervising
      → l.forwarder ≡ false
      → l.stdout ≡ false
      → l.stderr ≡ false
      → Step l (record l { phase = Phase.exited })
  -- The terminal state is reported, and then the task is forgotten by the hub.
  state_reported : l.phase ≡ Phase.exited → Step l (record l { phase = Phase.reported })
  unregistered :
      l.phase ≡ Phase.reported → Step l (record l { hub = false; phase = Phase.finished })

pub data Lives (l : Life) : Life → Type 0 where
  here : Lives l l
  then_step : {m n : Life} → Lives l m → Step m n → Lives l n
