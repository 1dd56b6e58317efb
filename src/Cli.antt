-- ===== src/Cli.antt =====
-- crates/bigtop/src/main.rs: the command line. The flags are parsed by a library; what the server
-- answers to a request is an argument. A command returns the lines that it prints on success, or the
-- outermost context of its error.
pub mod Table
pub mod Columns
pub mod Node
pub mod Restore
pub mod Replies
pub mod Filed
pub mod Restored
use Prim.Native.String.{◌++◌}
use bigtop.Common.{ℕ, Bool, Option, none, some, List, [], ◌∷◌, String, ◌⊎◌, inl, inr, if◌then◌else◌}
use bigtop.Core.Snapshots.{SnapshotType}
use bigtop.Core.Types.{JobSpec, TaskSpec}
use bigtop.Core.Wire.{
  SubmitJobResponse, LogLinesResponse, RequestSnapshotRequest, RequestSnapshotResponse,
}

abbrev pub default_server : String
default_server = "http://127.0.0.1:4667"

-- What becomes of a request: an answer with a success status and a body that decodes, an error status,
-- a body that does not decode, or no answer.
pub data Reply {ℓ} (A : Type ℓ) : Type ℓ where
  got : A → Reply A
  rejected : ℕ → Reply A
  bad_body : Reply A
  unreachable : Reply A

-- `.send().await.context(a)?.error_for_status().context(b)?.json().await.context(c)`
unfoldable pub expect {ℓ} : {A : Type ℓ} → String → String → String → Reply A → A ⊎ String
expect a b c (got body) = inl body
expect a b c (rejected status) = inr b
expect a b c bad_body = inr c
expect a b c unreachable = inr a

infixl 5 ◌>>=◌
abbrev pub ◌>>=◌ {ℓ κ} : {A : Type ℓ} {B : Type κ} → A ⊎ String → (A → B ⊎ String) → B ⊎ String
inl a >>= f = f a
inr message >>= f = inr message

-- An HTTP client: the `Authorization` header that it sends, if any.
pub record Client : Type 0 where
  pub authorization : Option String

-- `api_client`, where the token of the environment is an argument, and so is the HTTP library's test
-- for a header value.
unfoldable pub api_client : (String → Bool) → Option String → Client ⊎ String
api_client is_header_value none = inl (record { authorization = none })
api_client is_header_value (some token) =
    if is_header_value ("Bearer " ++ token)
    then inl (record { authorization = some ("Bearer " ++ token) })
    else inr "BIGTOP_API_TOKEN is not a valid HTTP header value"

-- `get_json`, with the client or the error of building it, and the reply to `GET`.
unfoldable pub get_json {ℓ} :
    {A : Type ℓ} → Client ⊎ String → (Client → String → Reply A) → String → String → A ⊎ String
unfolding expect
get_json client fetch server path = do
  c ← client
  expect "contacting server" "server error" "reading response" (fetch c (server ++ path))

-- A job file that was read and parsed.
pub record JobFile : Type 0 where
  pub name : String
  pub task : List TaskSpec

-- `cmd_run`, with the job file or the error of reading or parsing it.
unfoldable pub cmd_run :
    JobFile ⊎ String
    → Client ⊎ String
    → (Client → String → JobSpec → Reply SubmitJobResponse)
    → String
    → List String ⊎ String
unfolding expect
cmd_run file client submit server = do
  f ← file
  c ← client
  response ←
      expect "submitting job" "server rejected job" "reading submit response"
        (submit c (server ++ "/v1/jobs") (record { name = f.name; tasks = f.task }))
  inl (("submitted job " ++ response.job_id) ∷ [])

unfoldable pub cmd_logs :
    Client ⊎ String
    → (Client → String → Reply LogLinesResponse)
    → String
    → String
    → List String ⊎ String
unfolding get_json
cmd_logs client fetch task_id server = do
  logs ← get_json client fetch server ("/v1/tasks/" ++ task_id ++ "/logs")
  inl logs.lines

pub data SnapshotKind : Type 0 where
  full diff : SnapshotKind

unfoldable pub snapshot_type_of : SnapshotKind → SnapshotType
snapshot_type_of full = SnapshotType.full
snapshot_type_of diff = SnapshotType.diff

unfoldable pub cmd_snapshot_create :
    Client ⊎ String
    → (Client → String → RequestSnapshotRequest → Reply RequestSnapshotResponse)
    → String
    → SnapshotKind
    → Option String
    → Option String
    → String
    → List String ⊎ String
unfolding expect snapshot_type_of
cmd_snapshot_create client request task_id kind mem_path snap_path server = do
  c ← client
  response ← expect "contacting server" "server rejected snapshot request" "reading response" (
      request c (server ++ "/v1/tasks/" ++ task_id ++ "/snapshot") (record {
        snapshot_type = snapshot_type_of kind;
        mem_file_path = mem_path;
        snapshot_path = snap_path;
      }))
  inl (("snapshot " ++ response.snapshot_id ++ " requested for task " ++ task_id) ∷ [])
