-- ===== src/Agent/Supervise/Ends.antt =====
-- lib.rs: whether a supervised task comes to its end.
use bigtop.Common.{suc, ◌≡◌, refl, true, false, arith}
use bigtop.Agent.Supervise.{Phase, Life, begun, Step, Lives}

-- With a vsock channel, the hub keeps its sender until the task is over, the forwarder keeps its own
-- until the hub's is gone, and the task is not over before that.
record Stuck (l : Life) : Type 0 where
  hub : l.hub ≡ true
  forwarder : l.forwarder ≡ true
  phase : l.phase ≡ Phase.supervising

step-Stuck : (l m : Life) → Stuck l → Step l m → Stuck m
step-Stuck l _ s (Step.dialed h) = s'
  where
    s' : Stuck (record l { connections = suc l.connections })
    s' = record { hub = s.hub; forwarder = s.forwarder; phase = s.phase }
step-Stuck l _ s (Step.hung_up n h) = record {
  hub = s.hub;
  forwarder = s.forwarder;
  phase = s.phase;
}
step-Stuck l _ s Step.stdout_ended = record {
  hub = s.hub;
  forwarder = s.forwarder;
  phase = s.phase;
}
step-Stuck l _ s Step.stderr_ended = record {
  hub = s.hub;
  forwarder = s.forwarder;
  phase = s.phase;
}
step-Stuck l _ s (Step.forwarder_ended h c) = absurd (ground (arith, s.hub))
step-Stuck l _ s (Step.drained p f o e) = absurd (ground (arith, s.forwarder))
step-Stuck l _ s (Step.state_reported p) = absurd (ground (arith, s.phase))
step-Stuck l _ s (Step.unregistered p) = absurd (ground (arith, s.phase))

reached-Stuck : (l : Life) → Lives (begun true) l → Stuck l
unfolding begun
reached-Stuck _ Lives.here = record { hub = refl; forwarder = refl; phase = refl }
reached-Stuck _ (Lives.then_step {m} {n} run step) = step-Stuck m n (reached-Stuck m run) step

-- A task with a vsock channel is supervised forever: in whatever order its pipes end and its guest
-- connects and hangs up, it does not come to the report of its terminal state.
pub supervised_forever : (l : Life) → Lives (begun true) l → l.phase ≡ Phase.supervising
supervised_forever l run = (reached-Stuck l run).phase

-- Without a vsock channel nobody but the pumps holds a sender.
record Free (l : Life) : Type 0 where
  forwarder : l.forwarder ≡ false

step-Free : (l m : Life) → Free l → Step l m → Free m
step-Free l _ s (Step.dialed h) = record { forwarder = s.forwarder }
step-Free l _ s (Step.hung_up n h) = record { forwarder = s.forwarder }
step-Free l _ s Step.stdout_ended = record { forwarder = s.forwarder }
step-Free l _ s Step.stderr_ended = record { forwarder = s.forwarder }
step-Free l _ s (Step.forwarder_ended h c) = record { forwarder = refl }
step-Free l _ s (Step.drained p f o e) = record { forwarder = s.forwarder }
step-Free l _ s (Step.state_reported p) = record { forwarder = s.forwarder }
step-Free l _ s (Step.unregistered p) = record { forwarder = s.forwarder }

reached-Free : (l : Life) → Lives (begun false) l → Free l
unfolding begun
reached-Free _ Lives.here = record { forwarder = refl }
reached-Free _ (Lives.then_step {m} {n} run step) = step-Free m n (reached-Free m run) step

-- The way from each phase to the end.
to_end : (l : Life) → l.forwarder ≡ false → (m : Life) × Lives l m × (m.phase ≡ Phase.finished)
to_end l f = by_phase l.phase refl
  where
    by_phase : (p : Phase) → l.phase ≡ p → (m : Life) × Lives l m × (m.phase ≡ Phase.finished)
    by_phase Phase.finished e = (l, Lives.here, e)
    by_phase Phase.reported e = (_, Lives.then_step Lives.here (Step.unregistered e), refl)
    by_phase Phase.exited e = (
      _,
      Lives.then_step (Lives.then_step Lives.here (Step.state_reported e)) (Step.unregistered refl),
      refl,
    )
    by_phase Phase.supervising e = (
      _,
      Lives.then_step
          (Lives.then_step
            (Lives.then_step
              (Lives.then_step (Lives.then_step Lives.here Step.stdout_ended) Step.stderr_ended)
              (Step.drained e f refl refl))
            (Step.state_reported refl))
          (Step.unregistered refl),
      refl,
    )

-- A task without a vsock channel can come to its end from wherever it is.
pub supervised_to_end :
    (l : Life) → Lives (begun false) l → (m : Life) × Lives l m × (m.phase ≡ Phase.finished)
supervised_to_end l run = to_end l (reached-Free l run).forwarder
