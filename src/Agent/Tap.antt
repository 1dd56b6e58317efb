-- ===== src/Agent/Tap.antt =====
-- crates/bigtop-agent/src/tap.rs: the host's TAP devices. Its `run_ip` is `run_command` of overlay.rs
-- for `ip`, whose messages it shares word for word.
use bigtop.Common.{Option, List, [], ◌∷◌, String}
use bigtop.Agent.Shell.{AgentError, Shell, run_command}

pub record TapDevice : Type 0 where
  pub name : String

abbrev pub run_ip : List String → Shell → Option AgentError × Shell
run_ip args = run_command "ip" args

abbrev pub create_args : String → List String
create_args name = "tuntap" ∷ "add" ∷ "dev" ∷ name ∷ "mode" ∷ "tap" ∷ []

abbrev pub destroy_args : String → List String
destroy_args name = "link" ∷ "delete" ∷ "dev" ∷ name ∷ []

-- The device is `name`, if there is no error.
unfoldable pub create : String → Shell → Option AgentError × Shell
unfolding run_command
create name = run_ip (create_args name)

unfoldable pub set_up : TapDevice → Shell → Option AgentError × Shell
unfolding run_command
set_up tap = run_ip ("link" ∷ "set" ∷ "dev" ∷ tap.name ∷ "up" ∷ [])

unfoldable pub move_to_netns : TapDevice → String → Shell → Option AgentError × Shell
unfolding run_command
move_to_netns tap netns = run_ip ("link" ∷ "set" ∷ "dev" ∷ tap.name ∷ "netns" ∷ netns ∷ [])

unfoldable pub destroy : TapDevice → Shell → Option AgentError × Shell
unfolding run_command
destroy tap = run_ip (destroy_args tap.name)
