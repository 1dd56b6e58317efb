-- ===== src/Tests/Agents.antt =====
-- An agent that boots, supervises and describes a microVM.
use bigtop.Common.{◌≡◌, refl, ℕ, ◌++◌, true, false, none, some, List, [], ◌∷◌, String, arith, get}
use bigtop.Common.Sort.{sort_by}
use bigtop.Core.Network.{ipv4}
use bigtop.Core.Types.{Task, TaskState}
use bigtop.Agent.Firecracker.{tap_name_for}
use bigtop.Agent.Firecracker.Cmdline.{shell_join, le_pair}
use bigtop.Agent.Firecracker.Machine.{Machine}
use bigtop.Agent.Firecracker.Boot.{FirecrackerRuntime, netns_of}
use bigtop.Agent.Firecracker.Spawn.{spawn}
use bigtop.Agent.Firecracker.Taps.{Fate, spawn-Fate}
use bigtop.Agent.Firecracker.Quote.{Mode, words, step, is_name}
use bigtop.Agent.Firecracker.Line.{assignments, words-shell_join}
use bigtop.Agent.Supervise.{Event, Phase, Life, begun, Step, Lives, supervise}
use bigtop.Agent.Supervise.Batches.{Pushed, lines_of, supervise-Pushed}
use bigtop.Agent.Supervise.Ends.{supervised_forever}
use bigtop.Agent.Vsock.{LogFrame, LogStream}
use bigtop.Agent.Vsock.Hub.{Channel, Hub, handle_connection}
use bigtop.Agent.Vsock.Served.{encode_all, served, handle_connection-served}
use bigtop.Tests.{web}

abbrev runtime : FirecrackerRuntime
runtime = record {
  config = record {
    bin = "firecracker";
    vm_dir = "/tmp/bigtop-vms";
    boot_timeout = 10_000;
    jailer = none;
    overlay_vni = some 42;
  };
  vsock_hub = true;
}

abbrev networked : Task
networked = record {
  id = "task-2";
  job_id = "job-1";
  name = "web";
  spec = web;
  state = TaskState.assigned;
  assigned_node = some "node-1";
  exit_code = none;
  network =
      some
        (record { ip = ipv4 172 28 0 2; gateway = ipv4 172 28 0 1; netmask = ipv4 255 255 255 0 });
}

-- Everything works, but for the API, which refuses the first call.
abbrev host : Machine
host = record {
  shell = record { issued = []; outcomes = [] };
  steps = [];
  faults = [];
  looks = [];
  polls = 0 ∷ [];
  replies = "HTTP/1.1 400 Bad Request" ∷ [];
}

abbrev hash_key : String → ℕ
hash_key key = 81_985_529_216_486_895

abbrev base64 : String → String
base64 text = "c2VydmU="

spawn-Fate_example :
    Fate
      (netns_of runtime.config.jailer)
      (tap_name_for hash_key networked.id)
      host.shell
      (spawn hash_key base64 "2026-01-01T00:00:00Z" runtime networked host).1.shell
      (spawn hash_key base64 "2026-01-01T00:00:00Z" runtime networked host).0
spawn-Fate_example = spawn-Fate hash_key base64 "2026-01-01T00:00:00Z" runtime networked host

abbrev env : List (String × String)
env = ("PORT", "80") ∷ ("MOTD", "it's up") ∷ []

names : (is_name "PORT" ≡ true) × ((is_name "MOTD" ≡ true) × Unit {0})
unfolding is_name
names = (refl, (refl, tt))

-- What stands outside of quotes may be no word.
unread : words Mode.between "" (shell_join "serve" [] (("A;B", "1") ∷ [])) ≡ none
unfolding words step shell_join
unread = refl

words-shell_join_example :
    words Mode.between "" (shell_join "serve" ("--name" ∷ "a b" ∷ []) env)
    ≡ some (assignments (sort_by le_pair env) ("serve" ∷ "--name" ∷ "a b" ∷ []))
words-shell_join_example = words-shell_join "serve" ("--name" ∷ "a b" ∷ []) env names

-- A guest that greets, writes a line and completes.
abbrev frame : LogStream → LogFrame
frame stream = record { stream = stream; payload = 117 ∷ 112 ∷ [] }

abbrev frames : List LogFrame
frames = frame LogStream.stdout ∷ frame LogStream.complete ∷ []

abbrev lossy : List ℕ → String
lossy bytes = "task-2"

abbrev lines : List ℕ → List String
lines bytes = "up" ∷ []

abbrev channel : Channel
channel = record { received = []; closed = false }

abbrev hub : Hub
hub = record { senders = ("task-2", channel) ∷ []; completions = ("task-2", 1) ∷ []; fired = [] }

known_task : get (lossy (117 ∷ 112 ∷ [])) hub.senders ≡ some channel
unfolding get
known_task = refl

handle_connection-served_example :
    handle_connection lossy lines (encode_all (frame LogStream.handshake ∷ frames)) hub
    ≡ served lossy lines "task-2" frames hub
handle_connection-served_example =
    handle_connection-served lossy lines (frame LogStream.handshake) frames hub channel
      (omega arith, (omega arith, (omega arith, tt))) refl known_task

abbrev events : List Event
events = Event.line "up" ∷ Event.tick ∷ Event.line "down" ∷ []

supervise-Pushed_example : Pushed (lines_of events) (supervise (events ++ Event.closed ∷ []) [])
supervise-Pushed_example = supervise-Pushed events

-- The guest's output is over.
abbrev quiet : Life
quiet = record (begun true) { stdout = false; stderr = false }

ended : Lives (begun true) quiet
unfolding begun
ended = Lives.then_step (Lives.then_step Lives.here Step.stdout_ended) Step.stderr_ended

supervised_forever_example : quiet.phase ≡ Phase.supervising
supervised_forever_example = supervised_forever quiet ended
