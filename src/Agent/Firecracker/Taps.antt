-- ===== src/Agent/Firecracker/Taps.antt =====
-- firecracker.rs: what becomes of the TAP device of a boot.
use bigtop.Common.{
  ℕ, ◌≡◌, refl, ap, ◌∙◌, subst, Bool, Option, none, some, List, [], ◌∷◌, ◌++◌, String, append_assoc,
  Option-cases, Bool-cases, inl, inr,
}
use bigtop.Core.Types.{Task}
use bigtop.Agent.Shell.{AgentError, Shell}
use bigtop.Agent.Overlay.Reconcile.{issued-run_command}
use bigtop.Agent.Tap.{TapDevice, create, create_args, destroy, destroy_args}
use bigtop.Agent.Firecracker.{FirecrackerConfig, tap_name_for, vm_task_dir}
use bigtop.Agent.Firecracker.Machine.{Machine, AgentResult, ok, err, Act, and_then, pure}
use bigtop.Agent.Firecracker.Boot.{FirecrackerRuntime, configured, netns_of, or_destroy, setup_tap}
use bigtop.Agent.Firecracker.Spawn.{RunningTask, prepare, launched, spawn}
use bigtop.Agent.Firecracker.Quiet.{Quiet, prepare-Quiet, launched-Quiet}
use bigtop.Agent.Firecracker.Grows.{Kept, Grew, configured-Grows}

abbrev pub created : String → String × List String
created name = ("ip", create_args name)

abbrev pub deleted : String → String × List String
deleted name = ("ip", destroy_args name)

-- What became of the device `name` in a boot that began with `before` and came to its result with
-- `after`.
pub data Fate (netns : Option String) (name : String) (before after : Shell)
    : AgentResult RunningTask → Type 0 where
  plain :
      (t : RunningTask)
      → t.tap ≡ none
      → after.issued ≡ before.issued
      → Fate netns name before after (ok t)
  early : (e : AgentError) → after.issued ≡ before.issued → Fate netns name before after (err e)
  refused :
      (e : AgentError)
      → (create name before).0 ≡ some e
      → after.issued ≡ before.issued ++ created name ∷ []
      → Fate netns name before after (err e)
  destroyed :
      (e : AgentError) (rest : List (String × List String))
      → after.issued ≡ before.issued ++ created name ∷ (rest ++ deleted name ∷ [])
      → Kept netns rest
      → Fate netns name before after (err e)
  held :
      (t : RunningTask) (rest : List (String × List String))
      → t.tap ≡ some (record { name = name })
      → after.issued ≡ before.issued ++ created name ∷ rest
      → Kept netns rest
      → Fate netns name before after (ok t)

-- The same behind `setup_tap`.
data Setup (netns : Option String) (name : String) (before after : Shell)
    : AgentResult (Option TapDevice) → Type 0 where
  off : after.issued ≡ before.issued → Setup netns name before after (ok none)
  early_setup :
      (e : AgentError) → after.issued ≡ before.issued → Setup netns name before after (err e)
  refused_setup :
      (e : AgentError)
      → (create name before).0 ≡ some e
      → after.issued ≡ before.issued ++ created name ∷ []
      → Setup netns name before after (err e)
  destroyed_setup :
      (e : AgentError) (rest : List (String × List String))
      → after.issued ≡ before.issued ++ created name ∷ (rest ++ deleted name ∷ [])
      → Kept netns rest
      → Setup netns name before after (err e)
  up :
      (rest : List (String × List String))
      → after.issued ≡ before.issued ++ created name ∷ rest
      → Kept netns rest
      → Setup netns name before after (ok (some (record { name = name })))

-- A deletion behind a creation and other commands.
issued-destroy :
    (name : String) (before s : Shell) (rest : List (String × List String))
    → s.issued ≡ before.issued ++ created name ∷ rest
    → (destroy (record { name = name }) s).1.issued
      ≡ before.issued ++ created name ∷ (rest ++ deleted name ∷ [])
unfolding destroy
issued-destroy name before s rest h =
    issued-run_command "ip" (destroy_args name) s
    ∙ rw h (append_assoc before.issued (created name ∷ rest) (deleted name ∷ []))

-- `setup_tap` from the outcome of `configured` on.
settled-Setup :
    (netns : Option String) (name : String) (before mid : Shell)
    (r : AgentResult (Unit {0}) × Machine)
    → mid.issued ≡ before.issued ++ created name ∷ []
    → Grew netns mid r.1.shell
    → (λ (q : AgentResult (Option TapDevice) × Machine). Setup netns name before q.1.shell q.0)
        (and_then
          (or_destroy (some (record { name = name })) r)
          λ x. pure (some (record { name = name })))
settled-Setup netns name before mid (ok x, m) h g =
    Setup.up g.rest (g.issued ∙ rw h (append_assoc before.issued (created name ∷ []) g.rest)) g.kept
settled-Setup netns name before mid (err e, m) h g =
    Setup.destroyed_setup e g.rest
      (issued-destroy name before m.shell g.rest
        (g.issued ∙ rw h (append_assoc before.issued (created name ∷ []) g.rest)))
      g.kept

setup_tap-Setup :
    (hash_key : String → ℕ) (config : FirecrackerConfig) (task : Task) (m : Machine)
    → Setup
        (netns_of config.jailer)
        (tap_name_for hash_key task.id)
        m.shell
        (setup_tap hash_key config task m).1.shell
        (setup_tap hash_key config task m).0
unfolding setup_tap create
setup_tap-Setup hash_key config task m = elim (Bool-cases task.spec.network.enabled) [
  | inr without ↦ rw without (Setup.off refl)
  | inl wanted ↦ elim (Option-cases task.network) [
    | inl missing ↦ rw (wanted, missing) (Setup.early_setup _ refl)
    | inr (assigned, there) ↦
        let name = tap_name_for hash_key task.id in
        elim (Option-cases (create name m.shell).0) [
          | inl fine ↦
              rw (wanted, there, fine)
                (settled-Setup (netns_of config.jailer) name m.shell (create name m.shell).1
                  (configured config (record { name = name })
                    (record m { shell = (create name m.shell).1 }))
                  (issued-run_command "ip" (create_args name) m.shell)
                  ((configured-Grows config (record { name = name })).grew
                    (record m { shell = (create name m.shell).1 })))
          | inr (e, bad) ↦
              rw (wanted, there, bad)
                (Setup.refused_setup e bad (issued-run_command "ip" (create_args name) m.shell))
        ]
  ]
]

-- `spawn` from the outcome of `launched` on.
last-Fate :
    (netns : Option String) (name : String) (before : Shell) (tap : Option TapDevice) (n : Machine)
    (l : AgentResult Bool × Machine) (k : Bool → RunningTask)
    → ((stop : Bool) → (k stop).tap ≡ tap)
    → l.1.shell ≡ n.shell
    → Setup netns name before n.shell (ok tap)
    → (λ (q : AgentResult RunningTask × Machine). Fate netns name before q.1.shell q.0)
        (and_then (or_destroy tap l) λ stop. pure (k stop))
last-Fate netns name before none n (ok stop, m) k t h (Setup.off e) =
    Fate.plain (k stop) (t stop) (ap (λ (s : Shell). s.issued) h ∙ e)
last-Fate netns name before none n (err e, m) k t h (Setup.off i) =
    Fate.early e (ap (λ (s : Shell). s.issued) h ∙ i)
last-Fate netns name before (some tap) n (ok stop, m) k t h (Setup.up rest e kept) =
    Fate.held (k stop) rest (t stop) (ap (λ (s : Shell). s.issued) h ∙ e) kept
last-Fate netns name before (some tap) n (err e, m) k t h (Setup.up rest i kept) =
    Fate.destroyed e rest
      (issued-destroy name before m.shell rest (ap (λ (s : Shell). s.issued) h ∙ i)) kept

-- `spawn` from the outcome of `setup_tap` on.
spawned-Fate :
    (netns : Option String) (name : String) (before : Shell) (o : AgentResult (Option TapDevice))
    (n : Machine) (l : Act Bool) (k : Option TapDevice → Bool → RunningTask)
    → ((tap : Option TapDevice) (stop : Bool) → (k tap stop).tap ≡ tap)
    → Quiet l
    → Setup netns name before n.shell o
    → (λ (q : AgentResult RunningTask × Machine). Fate netns name before q.1.shell q.0)
        (and_then (o, n) λ tap m. and_then (or_destroy tap (l m)) λ stop. pure (k tap stop))
spawned-Fate netns name before (ok tap) n l k t q s =
    last-Fate netns name before tap n (l n) (k tap) (t tap) (q.shell n) s
spawned-Fate netns name before (err e) n l k t q (Setup.early_setup _ i) = Fate.early e i
spawned-Fate netns name before (err e) n l k t q (Setup.refused_setup _ c i) = Fate.refused e c i
spawned-Fate netns name before (err e) n l k t q (Setup.destroyed_setup _ rest i kept) =
    Fate.destroyed e rest i kept

-- Whatever the host answers, the commands of a boot on the host are these. A boot that fails has run
-- none, or only a creation of the TAP device that failed, or it has created the device, and the last
-- of its commands is the deletion of the device, which is issued once and whose own failure is not
-- looked at. A boot that succeeds has run no command and hands no device over, or it has created the
-- device first and handed it to the running task. No command between the creation and that end
-- deletes a device, and none moves one out of the host's network namespace, unless the jailer has a
-- namespace: then the deletion is run where the device need not be any more.
pub spawn-Fate :
    (hash_key : String → ℕ) (base64 : String → String) (created_at : String)
    (self : FirecrackerRuntime) (task : Task) (m : Machine)
    → Fate
        (netns_of self.config.jailer)
        (tap_name_for hash_key task.id)
        m.shell
        (spawn hash_key base64 created_at self task m).1.shell
        (spawn hash_key base64 created_at self task m).0
unfolding spawn
spawn-Fate hash_key base64 created_at self task m =
    begun (prepare self.config task m) ((prepare-Quiet self.config task).shell m)
  where
    netns : Option String
    netns = netns_of self.config.jailer

    name : String
    name = tap_name_for hash_key task.id

    running : Option TapDevice → Bool → RunningTask
    running tap stop = record {
      task_id = task.id;
      vm_dir = vm_task_dir self.config task.id;
      vsock_stop = stop;
      tap = tap;
    }

    begun :
        (r : AgentResult (Unit {0}) × Machine)
        → r.1.shell ≡ m.shell
        → (λ (q : AgentResult RunningTask × Machine). Fate netns name m.shell q.1.shell q.0)
            (and_then r λ x n. and_then (setup_tap hash_key self.config task n) λ tap n'.
              and_then
                (or_destroy tap (launched hash_key base64 created_at self task n'))
                λ stop. pure (running tap stop))
    begun (ok x, n) h =
        let o = setup_tap hash_key self.config task n in
        spawned-Fate netns name m.shell o.0 o.1 (launched hash_key base64 created_at self task)
          running (λ tap stop. refl) (launched-Quiet hash_key base64 created_at self task)
          (subst (λ s. Setup netns name s o.1.shell o.0) h
            (setup_tap-Setup hash_key self.config task n))
    begun (err e, n) h = Fate.early e (ap (λ (s : Shell). s.issued) h)
