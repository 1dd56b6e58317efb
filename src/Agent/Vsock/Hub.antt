-- ===== src/Agent/Vsock/Hub.antt =====
-- vsock.rs: the hub that routes the guests' lines and signals, and the handler of one connection. A
-- log channel is the list of the lines that were sent on it, in order, while its receiver is there.
-- `lossy` is `String::from_utf8_lossy`, and `lines` the lines of a text.
use Prim.Native.String.{◌++◌ as append}
use bigtop.Common.{
  ℕ, zero, suc, ◌+◌, Bool, true, false, none, some, List, [], ◌∷◌, ◌++◌, String, HashMap, get,
  insert, remove, length, unwrap_or, if◌then◌else◌,
}
use bigtop.Core.Ids.{TaskId}
use bigtop.Agent.Vsock.{handshake, stdout, stderr, complete, LogFrame, Decoded, decode}

pub record Channel : Type 0 where
  pub received : List String
  pub closed : Bool

-- `completions`: the number of the subscribers; `fired`: how often a subscriber was told.
pub record Hub : Type 0 where
  pub senders : HashMap Channel
  pub completions : HashMap ℕ
  pub fired : HashMap ℕ

-- `register`, with a channel that is open.
unfoldable pub register : TaskId → Hub → Hub
register task_id hub = record hub {
  senders = insert task_id (record { received = []; closed = false }) hub.senders;
}

unfoldable pub unregister : TaskId → Hub → Hub
unregister task_id hub = record hub {
  senders = remove task_id hub.senders;
  completions = remove task_id hub.completions;
}

unfoldable pub subscribe_completion : TaskId → Hub → Hub
subscribe_completion task_id hub = record hub {
  completions = insert task_id (unwrap_or 0 (get task_id hub.completions) + 1) hub.completions;
}

-- The subscribers of the first call are told, once each.
unfoldable pub notify_completion : TaskId → Hub → Hub
notify_completion task_id hub = elim (get task_id hub.completions) [
  | none ↦ hub
  | some n ↦ record hub {
    completions = remove task_id hub.completions;
    fired = insert task_id (unwrap_or 0 (get task_id hub.fired) + n) hub.fired;
  }
]

-- The loop over the lines of a frame; whether the channel is closed. The clone of the sender outlives
-- the hub's, so that a channel that the hub has forgotten takes lines that nobody reads.
unfoldable pub send : TaskId → List String → Hub → Bool × Hub
send task_id lines hub = elim (get task_id hub.senders) [
  | none ↦ (false, hub)
  | some channel ↦ elim lines [
    | [] ↦ (false, hub)
    | line ∷ rest ↦ if channel.closed then (true, hub) else (
      false,
      record hub {
        senders =
            insert task_id (record channel { received = channel.received ++ line ∷ rest })
              hub.senders;
      },
    )
  ]
]

abbrev pub tagged : String → List String → List String
tagged tag [] = []
tagged tag (line ∷ lines) = append "[vsock:" (append tag (append "] " line)) ∷ tagged tag lines

module _ (lossy : List ℕ → String) (lines : List ℕ → List String) where
  -- One frame behind the handshake: whether the connection goes on.
  unfoldable pub on_frame : TaskId → LogFrame → Hub → Bool × Hub
  unfolding notify_completion send
  on_frame task_id frame hub = elim frame.stream [
    | handshake ↦ (true, hub)
    | complete ↦ (false, notify_completion task_id hub)
    | stdout ↦
        let r = send task_id (tagged "stdout" (lines frame.payload)) hub in
        (if r.0 then false else true, r.1)
    | stderr ↦
        let r = send task_id (tagged "stderr" (lines frame.payload)) hub in
        (if r.0 then false else true, r.1)
  ]

  -- What the loop does with what it decoded; `again` is the loop.
  unfoldable pub serve_next : (List ℕ → Hub → Hub) → TaskId → Decoded → Hub → Hub
  unfolding on_frame notify_completion
  serve_next again task_id (Decoded.frame frame rest) hub =
      let r = on_frame task_id frame hub in if r.0 then again rest r.1 else r.1
  serve_next again task_id _ hub = notify_completion task_id hub

  -- The loop over the frames, of which there are fewer than bytes.
  unfoldable pub serve : ℕ → TaskId → List ℕ → Hub → Hub
  unfolding decode serve_next notify_completion
  serve zero task_id bytes hub = notify_completion task_id hub
  serve (suc fuel) task_id bytes hub = serve_next (serve fuel task_id) task_id (decode bytes) hub

  -- The greeting, and the loop behind it.
  unfoldable pub greet : Decoded → Hub → Hub
  unfolding serve
  greet (Decoded.frame first rest) hub = elim first.stream [
    | handshake ↦ elim (get (lossy first.payload) hub.senders) [
      | none ↦ hub
      | some channel ↦ serve (suc (length rest)) (lossy first.payload) rest hub
    ]
    | _ ↦ hub
  ]
  greet _ hub = hub

  unfoldable pub handle_connection : List ℕ → Hub → Hub
  unfolding decode greet
  handle_connection bytes hub = greet (decode bytes) hub
