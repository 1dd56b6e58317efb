-- ===== src/Agent/Firecracker/Grows.antt =====
-- firecracker.rs: the commands that configure a TAP device delete none, and move none to another
-- network namespace unless the jailer has one.
use bigtop.Common.{
  ◌≡◌, refl, ap, sym, ◌∙◌, Bool, true, false, not, ◌&&◌, ◌||◌, Option, none, some, List, [], ◌∷◌,
  ◌++◌, String, any, arith, append_assoc, append-nil, is_some, ◌==◌, if◌then◌else◌,
}
use bigtop.Agent.Shell.{Shell, run_command}
use bigtop.Agent.Overlay.{enslave_to_bridge}
use bigtop.Agent.Overlay.Reconcile.{issued-run_command}
use bigtop.Agent.Tap.{TapDevice, set_up, move_to_netns}
use bigtop.Agent.Firecracker.{FirecrackerConfig}
use bigtop.Agent.Firecracker.Machine.{
  Machine, AgentResult, ok, err, Act, and_then, ◌>>◌, pure, on_shell,
}
use bigtop.Agent.Firecracker.Boot.{netns_of, move_if, configured}

-- A command that deletes a device.
abbrev pub deletes : String × List String → Bool
deletes (bin, []) = false
deletes (bin, a ∷ []) = false
deletes (bin, a ∷ b ∷ args) = b == "delete"

-- A command that moves a device to another network namespace.
abbrev pub moves : String × List String → Bool
moves (bin, a ∷ b ∷ c ∷ d ∷ e ∷ args) = e == "netns"
moves _ = false

-- None of the commands deletes a device, and none takes one out of the host's network namespace, or
-- the jailer has a namespace.
abbrev pub Kept : Option String → List (String × List String) → Type 0
Kept netns rest = (any deletes rest ≡ false) × ((any moves rest && not (is_some netns)) ≡ false)

any-append :
    (p : String × List String → Bool) (xs ys : List (String × List String))
    → any p (xs ++ ys) ≡ (any p xs || any p ys)
any-append p [] ys = refl
any-append p (x ∷ xs) ys = ground (arith, any-append p xs ys)

module _ (netns : Option String) where
  -- The commands between two shells, which keep the device.
  pub record Grew (s u : Shell) : Type 0 where
    pub rest : List (String × List String)
    pub issued : u.issued ≡ s.issued ++ rest
    pub kept : Kept netns rest

  Grew-refl : (s : Shell) → Grew s s
  Grew-refl s = record { rest = []; issued = sym (append-nil s.issued); kept = (refl, refl) }

  Grew-trans : (s u v : Shell) → Grew s u → Grew u v → Grew s v
  Grew-trans s u v a b = record {
    rest = a.rest ++ b.rest;
    issued = b.issued ∙ ap (λ x. x ++ b.rest) a.issued ∙ append_assoc s.issued a.rest b.rest;
    kept = (
      any-append deletes a.rest b.rest ∙ ground (arith, a.kept.0, b.kept.0),
      ground (arith, any-append moves a.rest b.rest, a.kept.1, b.kept.1),
    );
  }

  -- An action that only adds such commands.
  pub record Grows (a : Act (Unit {0})) : Type 0 where
    pub grew : (m : Machine) → Grew m.shell (a m).1.shell

  and_then-Grew :
      (s : Shell) (r : AgentResult (Unit {0}) × Machine) (k : Act (Unit {0}))
      → Grew s r.1.shell
      → Grows k
      → Grew s (and_then r λ x. k).1.shell
  and_then-Grew s (ok x, m) k a b = Grew-trans s m.shell (k m).1.shell a (b.grew m)
  and_then-Grew s (err e, m) k a b = a

  then-Grows : (a k : Act (Unit {0})) → Grows a → Grows k → Grows (a >> k)
  then-Grows a k p q = record { grew = λ m. and_then-Grew m.shell (a m) k (p.grew m) q }

  run-Grows :
      (bin : String) (args : List String)
      → deletes (bin, args) ≡ false
      → (moves (bin, args) && not (is_some netns)) ≡ false
      → Grows (on_shell (run_command bin args))
  run-Grows bin args h k = record {
    grew = λ m. record {
      rest = (bin, args) ∷ [];
      issued = issued-run_command bin args m.shell;
      kept = (ground (arith, h), ground (arith, k));
    };
  }

  pure-Grows : Grows (pure tt)
  pure-Grows = record { grew = λ m. Grew-refl m.shell }

  if-Grows : (b : Bool) (x y : Act (Unit {0})) → Grows x → Grows y → Grows (if b then x else y)
  if-Grows true x y p q = p
  if-Grows false x y p q = q

pub configured-Grows :
    (config : FirecrackerConfig) (tap : TapDevice)
    → Grows (netns_of config.jailer) (configured config tap)
unfolding configured set_up enslave_to_bridge move_to_netns
configured-Grows config tap = then-Grows _ _ _ (run-Grows _ "ip" _ refl refl) (
    then-Grows _ _ _
      (if-Grows _ (is_some config.overlay_vni && not (is_some (netns_of config.jailer))) _ _
        (run-Grows _ "ip" _ refl refl) (pure-Grows _))
      (moved (netns_of config.jailer)))
  where
    moved : (netns : Option String) → Grows netns (move_if tap netns)
    moved none = pure-Grows none
    moved (some netns) = run-Grows (some netns) "ip" _ refl refl
