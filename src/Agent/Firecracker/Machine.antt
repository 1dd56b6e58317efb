-- ===== src/Agent/Firecracker/Machine.antt =====
-- crates/bigtop-agent/src/firecracker.rs: the host as the runtime sees it. What the host does to the
-- runtime's calls are lists in the order of the calls: `faults` of the steps, `looks` of the tests
-- whether a file exists, `polls` of the clock while the runtime waits, `replies` of the API. Past its
-- end a step succeeds, a file exists, the time is up, and the API answers 204.
use Prim.Native.Char.{code}
use Prim.Native.String.{◌++◌ as append}
use bigtop.Common.{
  ℕ, ◌+◌, ◌*◌, ◌-◌, Bool, true, false, ◌&&◌, Option, none, some, List, [], ◌∷◌, ◌++◌, String, ltb,
  leb, eqb, ◌==◌, if◌then◌else◌,
}
use bigtop.Server.State.Jobs.{is_whitespace}
use bigtop.Agent.Shell.{AgentError, Shell}
use bigtop.Agent.Firecracker.{Json}

pub data Step : Type 0 where
  create_dir remove_file bind : String → Step
  launch : List String → Step
  write : String → Json → Step
  put : String → String → Json → Step
  kill : Step

pub data Look : Type 0 where
  there absent : Look
  broken : AgentError → Look

pub record Machine : Type 0 where
  pub shell : Shell
  pub steps : List Step
  pub faults : List (Option AgentError)
  pub looks : List Look
  pub polls : List ℕ
  pub replies : List String

pub data AgentResult {ℓ} (A : Type ℓ) : Type ℓ where
  ok : A → AgentResult A
  err : AgentError → AgentResult A

abbrev pub Act {ℓ} : Type ℓ → Type ℓ
Act A = Machine → AgentResult A × Machine

abbrev pub and_then {ℓ κ} :
    {A : Type ℓ} {B : Type κ} → AgentResult A × Machine → (A → Act B) → AgentResult B × Machine
and_then (ok a, m) f = f a m
and_then (err e, m) f = (err e, m)

infixl 5 ◌>>=◌ ◌>>◌
abbrev pub ◌>>=◌ {ℓ κ} : {A : Type ℓ} {B : Type κ} → Act A → (A → Act B) → Act B
◌>>=◌ a f m = and_then (a m) f

abbrev pub ◌>>◌ {ℓ} : {B : Type ℓ} → Act (Unit {0}) → Act B → Act B
◌>>◌ a k m = and_then (a m) (λ _. k)

abbrev pub pure {ℓ} : {A : Type ℓ} → A → Act A
pure a m = (ok a, m)

abbrev pub raise {ℓ} : {A : Type ℓ} → AgentError → Act A
raise e m = (err e, m)

-- The outcome of a step from the front of `faults`.
abbrev pub outcome : Option AgentError → AgentResult (Unit {0})
outcome none = ok tt
outcome (some e) = err e

unfoldable pub perform : Step → Act (Unit {0})
perform step m = elim m.faults [
  | [] ↦ (ok tt, record m { steps = m.steps ++ step ∷ [] })
  | fault ∷ faults ↦ (outcome fault, record m { steps = m.steps ++ step ∷ []; faults = faults })
]

abbrev pub seen : Look → AgentResult Bool
seen Look.there = ok true
seen Look.absent = ok false
seen (Look.broken e) = err e

-- `try_exists`
unfoldable pub try_exists : Act Bool
try_exists m = elim m.looks [
  | [] ↦ (ok true, m)
  | look ∷ looks ↦ (seen look, record m { looks = looks })
]

-- A command on the host.
abbrev pub on_shell : (Shell → Option AgentError × Shell) → Act (Unit {0})
on_shell command m = let r = command m.shell in (outcome r.0, record m { shell = r.1 })

-- Remove a file that is there.
unfoldable pub remove_stale : String → Act (Unit {0})
unfolding try_exists perform
remove_stale path = do
  found ← try_exists
  if found then perform (Step.remove_file path) else pure tt

-- One round of `wait_for_socket` for each reading of the clock, in milliseconds since its start.
unfoldable pub wait : ℕ → String → List ℕ → Act (Unit {0})
unfolding try_exists
wait timeout sock [] =
    raise (AgentError.timeout (append "firecracker API socket never appeared: " sock))
wait timeout sock (elapsed ∷ polls) =
    let again = wait timeout sock polls in
    if ltb elapsed timeout
    then (try_exists >>= λ found. if found then pure tt else again)
    else raise (AgentError.timeout (append "firecracker API socket never appeared: " sock))

unfoldable pub wait_for_socket : String → ℕ → Act (Unit {0})
unfolding wait
wait_for_socket sock timeout m = wait timeout sock m.polls m

-- ---------------------------------------------------------------- fc_put

-- The text before the first line end.
unfoldable pub status_line : String → String
status_line String.[] = ""
status_line (String.◌∷◌ c String.[]) = String.◌∷◌ c ""
status_line (String.◌∷◌ c (String.◌∷◌ d s)) =
    let rest = status_line (String.◌∷◌ d s) in
    if eqb (code c) 13 && eqb (code d) 10 then "" else String.◌∷◌ c rest

abbrev keep_word : String → List String → List String
keep_word word words = if word == "" then words else word ∷ words

-- `split_whitespace`: the words, of which the first is `cur` and what follows it.
unfoldable pub split_words : String → String → List String
unfolding is_whitespace
split_words cur String.[] = keep_word cur []
split_words cur (String.◌∷◌ c s) =
    let fresh = split_words "" s in
    let longer = split_words (append cur (String.◌∷◌ c "")) s in
    if is_whitespace (code c) then keep_word cur fresh else longer

-- Decimal digits behind the number `n`, if all are digits and the result is at most `u16::MAX`.
unfoldable pub parse_digits : ℕ → String → Option ℕ
parse_digits n String.[] = some n
parse_digits n (String.◌∷◌ c s) =
    let rest = parse_digits (n * 10 + (code c - b'0')) s in
    if leb b'0' (code c) && leb (code c) b'9' && leb (n * 10 + (code c - b'0')) 65535
    then rest
    else none

-- `str::parse::<u16>`
unfoldable pub parse_u16 : String → Option ℕ
unfolding parse_digits
parse_u16 String.[] = none
parse_u16 (String.◌∷◌ c String.[]) =
    if eqb (code c) b'+' then none else parse_digits 0 (String.◌∷◌ c "")
parse_u16 (String.◌∷◌ c (String.◌∷◌ d s)) =
    if eqb (code c) b'+'
    then parse_digits 0 (String.◌∷◌ d s)
    else parse_digits 0 (String.◌∷◌ c (String.◌∷◌ d s))

abbrev second : List String → Option ℕ
second [] = none
second (a ∷ []) = none
second (a ∷ b ∷ words) = parse_u16 b

abbrev or_zero : Option ℕ → ℕ
or_zero none = 0
or_zero (some n) = n

unfoldable pub parse_status : String → ℕ × String
unfolding status_line split_words parse_u16
parse_status response =
    let head = status_line response in (or_zero (second (split_words "" head)), head)

-- What the runtime makes of a response.
unfoldable pub accepted : String → AgentResult (Unit {0})
unfolding parse_status
accepted response =
    let (status, message) = parse_status response in
    if leb 200 status && ltb status 300
    then ok tt
    else err (AgentError.firecracker_api status message)

abbrev next_reply : List String → String
next_reply [] = "HTTP/1.1 204 No Content"
next_reply (reply ∷ replies) = reply

abbrev rest_of : List String → List String
rest_of [] = []
rest_of (reply ∷ replies) = replies

unfoldable pub fc_put : String → String → Json → Act (Unit {0})
unfolding perform accepted
fc_put sock path body = perform (Step.put sock path body) >> λ m.
    (accepted (next_reply m.replies), record m { replies = rest_of m.replies })
