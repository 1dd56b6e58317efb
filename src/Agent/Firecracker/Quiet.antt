-- ===== src/Agent/Firecracker/Quiet.antt =====
-- firecracker.rs: the stages of a boot that run no command on the host.
use bigtop.Common.{
  ℕ, ◌≡◌, refl, ◌∙◌, Bool, true, false, not, Option, none, some, List, [], ◌∷◌, String, arith,
  Option-cases, inl, inr, is_some, ltb, if◌then◌else◌,
}
use bigtop.Core.Ids.{TaskId}
use bigtop.Core.Types.{Task}
use bigtop.Core.Network.{NetworkAssignment}
use bigtop.Core.Snapshots.{SnapshotLoadSpec}
use bigtop.Server.State.Jobs.{is_blank}
use bigtop.Agent.Shell.{AgentError, Shell}
use bigtop.Agent.Firecracker.{Json, FirecrackerConfig}
use bigtop.Agent.Firecracker.Machine.{
  Step, Machine, AgentResult, ok, err, Act, and_then, ◌>>=◌, ◌>>◌, pure, raise, perform, try_exists,
  remove_stale, wait, fc_put,
}
use bigtop.Agent.Firecracker.Boot.{
  FirecrackerRuntime, attach, configure, spawn_vmm, start_vsock_server, check_image, check_images,
}
use bigtop.Agent.Firecracker.Spawn.{or_kill, boot_vmm, prepare, launched}

-- An action that runs no command on the host.
pub record Quiet {ℓ} {A : Type ℓ} (a : Act A) : Type 0 where
  pub shell : (m : Machine) → (a m).1.shell ≡ m.shell

and_then-Quiet {ℓ κ} :
    {A : Type ℓ} {B : Type κ} (r : AgentResult A × Machine) (f : A → Act B) (s : Shell)
    → r.1.shell ≡ s
    → ((a : A) → Quiet (f a))
    → (and_then r f).1.shell ≡ s
and_then-Quiet (ok a, m) f s h q = (q a).shell m ∙ h
and_then-Quiet (err e, m) f s h q = h

bind-Quiet {ℓ κ} :
    {A : Type ℓ} {B : Type κ} (a : Act A) (f : A → Act B)
    → Quiet a
    → ((x : A) → Quiet (f x))
    → Quiet (a >>= f)
bind-Quiet a f p q = record { shell = λ m. and_then-Quiet (a m) f m.shell (p.shell m) q }

then-Quiet {ℓ} : {B : Type ℓ} (a : Act (Unit {0})) (k : Act B) → Quiet a → Quiet k → Quiet (a >> k)
then-Quiet a k p q = record {
  shell = λ m. and_then-Quiet (a m) (λ x. k) m.shell (p.shell m) (λ x. q);
}

pure-Quiet {ℓ} : {A : Type ℓ} (a : A) → Quiet (pure a)
pure-Quiet a = record { shell = λ m. refl }

raise-Quiet {ℓ} : (A : Type ℓ) (e : AgentError) → Quiet (raise {A = A} e)
raise-Quiet A e = record { shell = λ m. refl }

perform-Quiet : (step : Step) → Quiet (perform step)
unfolding perform
perform-Quiet step = record { shell = λ m. ground arith }

try_exists-Quiet : Quiet try_exists
unfolding try_exists
try_exists-Quiet = record { shell = λ m. ground arith }

fc_put-Quiet : (sock path : String) (body : Json) → Quiet (fc_put sock path body)
unfolding fc_put
fc_put-Quiet sock path body =
    then-Quiet (perform (Step.put sock path body)) _ (perform-Quiet (Step.put sock path body))
      (record { shell = λ m. refl })

-- A choice between two quiet actions.
if-Quiet {ℓ} :
    {A : Type ℓ} (b : Bool) (x y : Act A) → Quiet x → Quiet y → Quiet (if b then x else y)
if-Quiet true x y p q = p
if-Quiet false x y p q = q

remove_stale-Quiet : (path : String) → Quiet (remove_stale path)
unfolding remove_stale
remove_stale-Quiet path =
    bind-Quiet try_exists _ try_exists-Quiet
      λ found. if-Quiet found _ _ (perform-Quiet (Step.remove_file path)) (pure-Quiet tt)

wait-Quiet : (timeout : ℕ) (sock : String) (polls : List ℕ) → Quiet (wait timeout sock polls)
unfolding wait
wait-Quiet timeout sock [] = raise-Quiet Unit _
wait-Quiet timeout sock (elapsed ∷ polls) =
    if-Quiet (ltb elapsed timeout) _ _
      (bind-Quiet try_exists _ try_exists-Quiet
        λ found. if-Quiet found _ _ (pure-Quiet tt) (wait-Quiet timeout sock polls))
      (raise-Quiet Unit _)

attach-Quiet :
    (hash_key : String → ℕ) (sock : String) (task : Task) (enabled : Bool)
    (assigned : Option NetworkAssignment)
    → Quiet (attach hash_key sock task enabled assigned)
attach-Quiet hash_key sock task false assigned = pure-Quiet tt
attach-Quiet hash_key sock task true none = raise-Quiet Unit _
attach-Quiet hash_key sock task true (some assigned) = fc_put-Quiet sock _ _

configure-Quiet :
    (hash_key : String → ℕ) (self : FirecrackerRuntime) (sock : String) (task : Task)
    (vcpu_count mem_mb : ℕ) (args : String)
    → Quiet (configure hash_key self sock task vcpu_count mem_mb args)
unfolding configure
configure-Quiet hash_key self sock task vcpu_count mem_mb args =
    then-Quiet _ _ (fc_put-Quiet sock _ _) (
      then-Quiet _ _ (fc_put-Quiet sock _ _) (
        then-Quiet _ _ (fc_put-Quiet sock _ _) (
          then-Quiet _ _ (if-Quiet self.vsock_hub _ _ (fc_put-Quiet sock _ _) (pure-Quiet tt)) (
            then-Quiet _ _ (attach-Quiet hash_key sock task task.spec.network.enabled task.network)
              (fc_put-Quiet sock _ _)))))

spawn_vmm-Quiet :
    (config : FirecrackerConfig) (task : Task) (sock : String) → Quiet (spawn_vmm config task sock)
unfolding spawn_vmm
spawn_vmm-Quiet config task sock = elim (Option-cases config.jailer) [
  | inl free ↦ rw free (then-Quiet _ _ (perform-Quiet _) (pure-Quiet none))
  | inr (opts, jailed) ↦ rw jailed (then-Quiet _ _ (perform-Quiet _) (pure-Quiet _))
]

start_vsock_server-Quiet :
    (self : FirecrackerRuntime) (task_id : TaskId) → Quiet (start_vsock_server self task_id)
unfolding start_vsock_server
start_vsock_server-Quiet self task_id =
    if-Quiet (not self.vsock_hub) _ _ (pure-Quiet false)
      (then-Quiet _ _ (remove_stale-Quiet _) (then-Quiet _ _ (perform-Quiet _) (pure-Quiet true)))

or_kill-Quiet : (a : Act (Unit {0})) → Quiet a → Quiet (λ m. or_kill (a m))
or_kill-Quiet a q = record { shell = λ m. killed (a m) ∙ q.shell m }
  where
    killed : (r : AgentResult (Unit {0}) × Machine) → (or_kill r).1.shell ≡ r.1.shell
    killed (ok x, m) = refl
    killed (err e, m) = (perform-Quiet Step.kill).shell m

check_image-Quiet : (label path : String) → Quiet (check_image label path)
check_image-Quiet label path =
    bind-Quiet try_exists _ try_exists-Quiet
      λ found. if-Quiet found _ _ (pure-Quiet tt) (raise-Quiet Unit _)

check_images-Quiet : (task : Task) → Quiet (check_images task)
unfolding check_images
check_images-Quiet task = if-Quiet (is_blank task.spec.vm.kernel_image) _ _ (raise-Quiet Unit _) (
    if-Quiet (is_blank task.spec.vm.rootfs) _ _ (raise-Quiet Unit _)
      (then-Quiet _ _ (check_image-Quiet _ _) (check_image-Quiet _ _)))

pub prepare-Quiet : (config : FirecrackerConfig) (task : Task) → Quiet (prepare config task)
unfolding prepare
prepare-Quiet config task =
    then-Quiet _ _
      (if-Quiet (not (is_some config.jailer)) _ _ (check_images-Quiet task) (pure-Quiet tt))
      (then-Quiet _ _ (perform-Quiet _)
        (if-Quiet (not (is_some config.jailer)) _ _ (remove_stale-Quiet _) (pure-Quiet tt)))

module _ (hash_key : String → ℕ) (base64 : String → String) (created_at : String) where
  boot_vmm-Quiet :
      (self : FirecrackerRuntime) (sock : String) (task : Task) (vcpu_count mem_mb : ℕ)
      (args : String) (load : Option SnapshotLoadSpec)
      → Quiet (boot_vmm hash_key base64 created_at self sock task vcpu_count mem_mb args load)
  boot_vmm-Quiet self sock task vcpu_count mem_mb args none =
      configure-Quiet hash_key self sock task vcpu_count mem_mb args
  boot_vmm-Quiet self sock task vcpu_count mem_mb args (some load) = fc_put-Quiet sock _ _

  pub launched-Quiet :
      (self : FirecrackerRuntime) (task : Task)
      → Quiet (launched hash_key base64 created_at self task)
  unfolding launched
  launched-Quiet self task = bind-Quiet _ _ (spawn_vmm-Quiet self.config task _) λ line.
      then-Quiet _ _ (perform-Quiet _) (
        then-Quiet _ _ (record { shell = λ m. (wait-Quiet _ _ m.polls).shell m })
          (bind-Quiet _ _ (start_vsock_server-Quiet self task.id) λ stop.
            then-Quiet _ _ (or_kill-Quiet _ (boot_vmm-Quiet self _ task _ _ _ _))
              (pure-Quiet stop)))
