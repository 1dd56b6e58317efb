-- ===== src/Server/Shadow/Driver.antt =====
-- harvest_shadow.rs: the audit's driver, with the table of verdicts. A statement of the database takes
-- its outcome from the list `statements` of the driver, an error message or none; past its end it
-- succeeds. Rows are in the order in which a scan of the table returns them. What the workflow engine
-- answers, the clock and the JSON library are arguments; no lock is poisoned.
pub mod Rows
pub mod Tracks
pub mod Table
pub mod Sweeps
pub mod Places
pub mod Ends
pub mod Live
pub mod Reads
use Prim.Native.String.{◌++◌ as append}
use bigtop.Common.{
  ℕ, ◌+◌, ◌%◌, ◌^◌, Bool, Option, none, some, List, [], ◌∷◌, ◌++◌, String, ◌⊎◌, inl, inr,
  if◌then◌else◌, ◌==◌, any, filter, map, length,
}
use bigtop.Core.Ids.{TaskId, NodeId, SnapshotId}
use bigtop.Server.Shadow.{ShadowInput, Observation, Verdict, as_str}
use bigtop.Server.Shadow.Audit.{ShadowOutput}
use bigtop.Server.Shadow.Handle.{TrackCmd}

pub data ShadowError : Type 0 where
  harvest store serialization spawn : String → ShadowError
  driver_hung : ShadowError

-- A row of `bigtop_shadow_tracks`.
pub record Row : Type 0 where
  pub snapshot_id : String
  pub execution_id : String
  pub task_id : String
  pub verdict : String
  pub observations_json : String
  pub detail : String
  pub updated_at : String

-- `started`, `observations` and `errors` are the counters of `ShadowStats`, which are `AtomicU64`.
pub record ShadowDriver : Type 0 where
  pub rows : List Row
  pub statements : List (Option String)
  pub started : ℕ
  pub observations : ℕ
  pub errors : ℕ

pub data ShadowResult {ℓ} (A : Type ℓ) : Type ℓ where
  ok : A → ShadowResult A
  err : ShadowError → ShadowResult A

abbrev pub Action {ℓ} : Type ℓ → Type ℓ
Action A = ShadowDriver → ShadowResult A × ShadowDriver

abbrev pub and_then {ℓ κ} :
    {A : Type ℓ} {B : Type κ}
    → ShadowResult A × ShadowDriver
    → (A → Action B)
    → ShadowResult B × ShadowDriver
and_then (ok a, d) f = f a d
and_then (err e, d) f = (err e, d)

infixl 5 ◌>>=◌ ◌>>◌
abbrev pub ◌>>=◌ {ℓ κ} : {A : Type ℓ} {B : Type κ} → Action A → (A → Action B) → Action B
◌>>=◌ m f d = and_then (m d) f

abbrev pub ◌>>◌ {ℓ} : {B : Type ℓ} → Action (Unit {0}) → Action B → Action B
◌>>◌ m k d = and_then (m d) (λ _. k)

abbrev pub pure {ℓ} : {A : Type ℓ} → A → Action A
pure a d = (ok a, d)

abbrev pub raise {ℓ} : {A : Type ℓ} → ShadowError → Action A
raise e d = (err e, d)

abbrev pub modify : (ShadowDriver → ShadowDriver) → Action (Unit {0})
modify f d = (ok tt, f d)

-- What the JSON library or the workflow engine returned, its error passed on.
abbrev pub or_raise {ℓ} : {A : Type ℓ} → A ⊎ String → (String → ShadowError) → Action A
or_raise (inl a) f = pure a
or_raise (inr message) f = raise (f message)

-- The next outcome, `map_err(|e| ShadowError::Store(e.to_string()))`.
unfoldable pub answer_of :
    ShadowDriver → List (Option String) → ShadowResult (Unit {0}) × ShadowDriver
answer_of d [] = (ok tt, d)
answer_of d (none ∷ rest) = (ok tt, record d { statements = rest })
answer_of d (some message ∷ rest) = (err (store message), record d { statements = rest })

unfoldable pub statement : Action (Unit {0})
unfolding answer_of
statement d = answer_of d d.statements

abbrev pub add_u64 : ℕ → ℕ → ℕ
add_u64 counter n = (counter + n) % 2 ^ 64

unfoldable pub has_row : SnapshotId → List Row → Bool
has_row id rows = any (λ r. r.snapshot_id == id) rows

-- `SELECT COUNT(*) ... WHERE snapshot_id = ?1`
unfoldable pub is_tracked : SnapshotId → Action Bool
unfolding statement has_row
is_tracked id = do statement; λ d. (ok (has_row id d.rows), d)

abbrev pub new_row : ShadowInput → String → String → Row
new_row input exec now = record {
  snapshot_id = input.snapshot_id;
  execution_id = exec;
  task_id = input.task_id;
  verdict = "pending";
  observations_json = "[]";
  detail = "";
  updated_at = now;
}

-- `INSERT`, where `snapshot_id` is the primary key.
unfoldable pub insert_row : Row → Action (Unit {0})
unfolding has_row
insert_row r d =
    if has_row r.snapshot_id d.rows
    then (err (store "UNIQUE constraint failed: bigtop_shadow_tracks.snapshot_id"), d)
    else (ok tt, record d { rows = d.rows ++ r ∷ [] })

-- `track_input`, with what `start_workflow` returns if it is called: an execution id or an error.
unfoldable pub track_input : ShadowInput → String ⊎ String → String → Action (Unit {0})
unfolding is_tracked insert_row
track_input input start now = do
  tracked ← is_tracked input.snapshot_id
  if tracked then pure tt else do
    exec ← or_raise start harvest
    statement
    insert_row (new_row input exec now)
    modify (λ d. record d { started = add_u64 d.started 1 })

abbrev pub poll_secs : ℕ
poll_secs = 5

abbrev pub max_polls : ℕ
max_polls = 72

abbrev pub input_of : TrackCmd → ShadowInput
input_of cmd = record {
  snapshot_id = cmd.snapshot_id;
  task_id = cmd.task_id;
  node_id = cmd.node_id;
  poll_secs = poll_secs;
  max_polls = max_polls;
}

-- `track`
unfoldable pub track : TrackCmd → String ⊎ String → String → Action (Unit {0})
unfolding track_input
track cmd = track_input (input_of cmd)

-- `completed` carries the JSON value of the workflow's output.
pub data ExecutionOutcome : Type 0 where
  completed failed terminated : String → ExecutionOutcome
  running : ExecutionOutcome

-- The library code that a sweep calls: `ExecutionId::from_str`, `from_value` of an output and
-- `to_string` of the observations, each with its result or an error message.
pub record Codec : Type 0 where
  pub execution_id : String → String ⊎ String
  pub output : String → ShadowOutput ⊎ String
  pub encode : List Observation → String ⊎ String

unfoldable pub is_pending : Row → Bool
is_pending r = r.verdict == "pending"

-- `SELECT ... WHERE verdict = 'pending'`
unfoldable pub pending_tracks : Action (List (String × String))
unfolding statement is_pending
pending_tracks = do
  statement
  λ d. (ok (map (λ r. (r.snapshot_id, r.execution_id)) (filter is_pending d.rows)), d)

unfoldable pub set_verdict : String → String → String → String → String → Row → Row
set_verdict id verdict json detail now r =
    if r.snapshot_id == id
    then record r { verdict = verdict; observations_json = json; detail = detail; updated_at = now }
    else r

module _ (codec : Codec) (now : String) where
  unfoldable pub record_verdict : String → Verdict → List Observation → String → Action (Unit {0})
  unfolding statement set_verdict as_str
  record_verdict id verdict observations detail = do
    json ← or_raise (codec.encode observations) serialization
    statement
    modify (λ d. record d { rows = map (set_verdict id (as_str verdict) json detail now) d.rows })

  -- The `match` of `sweep` on the outcome of an execution.
  unfoldable pub settle : String → ExecutionOutcome → Action (Unit {0})
  unfolding record_verdict
  settle id (completed value) = do
    output ← or_raise (codec.output value) serialization
    record_verdict id output.verdict output.observations ""
    modify (λ d. record d { observations = add_u64 d.observations (length output.observations) })
  settle id (failed message) = record_verdict id Verdict.harvest_error [] message
  settle id (terminated state) =
      record_verdict id Verdict.harvest_error [] (append "terminated as " state)
  settle id running = pure tt

  -- The loop of `sweep`, where `outcome` is the engine's answer for an execution.
  unfoldable pub sweep_all :
      (String → ExecutionOutcome ⊎ String) → List (String × String) → Action (Unit {0})
  unfolding settle
  sweep_all outcome [] = pure tt
  sweep_all outcome ((id, exec_str) ∷ pending) = do
    exec ←
        or_raise (codec.execution_id exec_str) (λ e. serialization (append "bad execution id: " e))
    result ← or_raise (outcome exec) harvest
    settle id result
    sweep_all outcome pending

  unfoldable pub sweep : (String → ExecutionOutcome ⊎ String) → Action (Unit {0})
  unfolding pending_tracks sweep_all
  sweep outcome = do pending ← pending_tracks; sweep_all outcome pending

  -- `tick`, with the error of `poll_once`, if it has one.
  unfoldable pub tick : Option String → (String → ExecutionOutcome ⊎ String) → Action (Unit {0})
  unfolding sweep
  tick (some message) outcome = raise (harvest message)
  tick none outcome = sweep outcome

-- An error is logged and counted.
unfoldable pub contained : ShadowResult (Unit {0}) × ShadowDriver → ShadowDriver
contained (ok _, d) = d
contained (err e, d) = record d { errors = add_u64 d.errors 1 }

-- What one round of `drive` receives, each command with the engine's answer to it and the time, and
-- what the engine then answers to the tick.
pub record Round : Type 0 where
  pub commands : List (TrackCmd × (String ⊎ String) × String)
  pub poll : Option String
  pub outcome : String → ExecutionOutcome ⊎ String
  pub now : String

-- `track_one`, for each command that was sent.
unfoldable pub track_all :
    List (TrackCmd × (String ⊎ String) × String) → ShadowDriver → ShadowDriver
unfolding track contained
track_all [] d = d
track_all ((cmd, start, now) ∷ commands) d = track_all commands (contained (track cmd start now d))

-- The loop of `drive`, up to the disconnection of the channel.
unfoldable pub drive : Codec → List Round → ShadowDriver → ShadowDriver
unfolding track_all tick contained
drive codec [] d = d
drive codec (r ∷ rounds) d =
    drive codec rounds (contained (tick codec r.now r.poll r.outcome (track_all r.commands d)))
