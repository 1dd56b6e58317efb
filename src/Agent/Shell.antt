-- ===== src/Agent/Shell.antt =====
-- crates/bigtop-agent/src: the agent's errors (lib.rs), and the commands that overlay.rs and tap.rs run
-- on the host. What a command comes to is taken from the list `outcomes`; past its end it succeeds.
use Prim.Native.String.{◌++◌ as append}
use text.Mathlib.Text.{starts_with}
use bigtop.Common.{ℕ, Bool, true, false, ◌||◌, Option, none, some, List, [], ◌∷◌, ◌++◌, String}

pub data AgentError : Type 0 where
  http io spawn json image_missing timeout server network config : String → AgentError
  firecracker_api : ℕ → String → AgentError

-- A command cannot be run, or it exits with an error and this text, trimmed, on its standard error.
pub data Outcome : Type 0 where
  succeeded : Outcome
  unavailable failed : String → Outcome

pub record Shell : Type 0 where
  pub issued : List (String × List String)
  pub outcomes : List Outcome

unfoldable pub network_err : String → AgentError
network_err detail =
    network (append detail "; needs CAP_NET_ADMIN (or root) and iproute2; see README host setup")

-- `args.join(" ")`
unfoldable pub join : String → List String → String
join separator [] = ""
join separator (s ∷ []) = s
join separator (s ∷ t ∷ ss) = append s (append separator (join separator (t ∷ ss)))

-- The error of a command, if it fails.
unfoldable pub error_of : String → List String → Outcome → Option AgentError
unfolding network_err join
error_of bin args succeeded = none
error_of bin args (unavailable message) =
    some (network_err (append "failed to run `" (append bin (append "`: " message))))
error_of bin args (failed stderr) = some (
    network_err
      (append "`" (append bin (append " " (append (join " " args) (append "` failed: " stderr))))))

-- `run_command`
unfoldable pub run_command : String → List String → Shell → Option AgentError × Shell
unfolding error_of
run_command bin args shell = elim shell.outcomes [
  | [] ↦ (none, record { issued = shell.issued ++ (bin, args) ∷ []; outcomes = [] })
  | outcome ∷ rest ↦ (
    error_of bin args outcome,
    record { issued = shell.issued ++ (bin, args) ∷ []; outcomes = rest },
  )
]

-- `msg.contains(needle)`
unfoldable pub contains : String → String → Bool
contains needle String.[] = starts_with "" needle
contains needle (String.◌∷◌ c s) = starts_with (String.◌∷◌ c s) needle || contains needle s

unfoldable pub is_exists_error : AgentError → Bool
unfolding contains
is_exists_error (network message) = contains "File exists" message
is_exists_error _ = false

-- `a?; b`, for commands.
infixl 5 ◌>>◌
abbrev pub ◌>>◌ :
    (Shell → Option AgentError × Shell)
    → (Shell → Option AgentError × Shell)
    → Shell
    → Option AgentError × Shell
◌>>◌ a b shell = let r = a shell in elim r.0 [ none ↦ b r.1 | some e ↦ (some e, r.1) ]

-- `run_ip_tolerate_exists`
unfoldable pub run_ip_tolerate_exists : List String → Shell → Option AgentError × Shell
unfolding run_command is_exists_error
run_ip_tolerate_exists args shell =
    let r = run_command "ip" args shell in
    elim r.0 [
      | none ↦ (none, r.1)
      | some e ↦ elim (is_exists_error e) [ true ↦ (none, r.1) | false ↦ (some e, r.1) ]
    ]
