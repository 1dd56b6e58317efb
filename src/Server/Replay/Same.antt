-- ===== src/Server/Replay/Same.antt =====
-- When a replayed state stands for a live one: all that the journal records is equal. Logs, heartbeat
-- times, underlay addresses and the `used` accounting are runtime state that the journal leaves out.
use bigtop.Common.{
  map_values-insert, insert_same, get-map_values, map_values, ℕ, ◌≡◌, refl, sym, ap, ◌∙◌, none,
  some, List, [], ◌∷◌, ◌++◌, HashMap, get, insert, arith, Option-cases, inl, inr, String,
  append-nil, append_assoc,
}
use mathlib.Core.List.{foldl-append}
use bigtop.Core.Resources
use bigtop.Core.Types.{NodeInfo}
use bigtop.Server.Journal.{JournalOp, JournalWriter, append}
use bigtop.Core.Error.{Result, ok, err}
use bigtop.Server.State.{StateInner, and_then, pure, journal_op}
use bigtop.Server.Replay.{apply_all, apply_one}

-- The part of a node that the journal keeps.
abbrev pub stable : NodeInfo → NodeInfo
stable node = record node { underlay_ip = none; used = Resources.default; last_heartbeat = 0 }

abbrev pub stable_nodes : HashMap NodeInfo → HashMap NodeInfo
stable_nodes nodes = map_values stable nodes

pub record Same (s t : StateInner) : Type 0 where
  pub jobs : t.jobs ≡ s.jobs
  pub tasks : t.tasks ≡ s.tasks
  pub snapshots : t.snapshots ≡ s.snapshots
  pub ipam : t.ipam ≡ s.ipam
  pub nodes : stable_nodes t.nodes ≡ stable_nodes s.nodes
  pub parked : t.journal ≡ none

-- The complete lines of the journal.
abbrev pub lines : StateInner → List JournalOp
lines s = elim s.journal [ none ↦ [] | some w ↦ w.lines ]

abbrev pub Journaled : StateInner → Type 0
Journaled s = (w : JournalWriter) × (s.journal ≡ some w)

-- From `s` to `s'` the journal grew by `ops`, and replaying `ops` takes every state that stands for
-- `s` to one that stands for `s'`.
pub record Extends (now : ℕ) (s s' : StateInner) : Type 0 where
  pub ops : List JournalOp
  pub attached : Journaled s'
  pub written : lines s' ≡ lines s ++ ops
  pub replays : (t : StateInner) → Same s t → Same s' (apply_all now t ops)

pub Extends-refl : (now : ℕ) (s : StateInner) → Journaled s → Extends now s s
unfolding apply_all
Extends-refl now s j = record {
  ops = [];
  attached = j;
  written = sym (append-nil (lines s));
  replays = λ t h. h;
}

pub Extends-trans :
    (now : ℕ) (s u v : StateInner) → Extends now s u → Extends now u v → Extends now s v
unfolding apply_all
Extends-trans now s u v a b = record {
  ops = a.ops ++ b.ops;
  attached = b.attached;
  written = rw (b.written, a.written) (append_assoc (lines s) a.ops b.ops);
  replays = λ t h. rw foldl-append (b.replays (apply_all now t a.ops) (a.replays t h));
}

-- A journaled operation that succeeded: `s` with one line more.
pub record Logged (op : JournalOp) (s s' : StateInner) : Type 0 where
  pub writer : JournalWriter
  pub state : s' ≡ record s { journal = some writer }
  pub line : writer.lines ≡ lines s ++ op ∷ []

journal_op-Logged :
    (op : JournalOp) (s : StateInner)
    → Journaled s
    → (journal_op op s).0 ≡ ok tt
    → Logged op s (journal_op op s).1
unfolding journal_op
journal_op-Logged op s (w, e) h = elim (Option-cases (append w op).0) [
  | inl fine ↦ record { writer = (append w op).1; state = ground arith; line = ground arith }
  | inr (message, bad) ↦ absurd (ground arith)
]

-- An operation that changes the state to `u` and journals `op`: it is enough that replaying `op` makes
-- the change.
pub Extends-step :
    (now : ℕ) (op : JournalOp) (s u : StateInner)
    → Journaled s
    → u.journal ≡ s.journal
    → (journal_op op u).0 ≡ ok tt
    → ((t : StateInner) → Same s t → Same u (apply_one now t op))
    → Extends now s (journal_op op u).1
unfolding apply_all
Extends-step now op s u (w, e) kept h change =
    let l = journal_op-Logged op u (w, kept ∙ e) h in
    record {
      ops = op ∷ [];
      attached = (l.writer, ap (λ (v : StateInner). v.journal) l.state);
      written = rw (l.state, l.line) (ground arith);
      replays = λ t same.
          let c = change t same in
          rw l.state (record {
            jobs = c.jobs;
            tasks = c.tasks;
            snapshots = c.snapshots;
            ipam = c.ipam;
            nodes = c.nodes;
            parked = c.parked;
          });
    }

module _ {ℓ} {A : Type ℓ} where
  pure-state : (r : Result (Unit {0}) × StateInner) (a : A) → (and_then r (λ _. pure a)).1 ≡ r.1
  pure-state (ok u, s) a = refl
  pure-state (err e, s) a = refl

  pure-ok :
      (r : Result (Unit {0}) × StateInner) (a b : A)
      → (and_then r (λ _. pure a)).0 ≡ ok b
      → r.0 ≡ ok tt
  pure-ok (ok u, s) a b h = refl
  pure-ok (err e, s) a b h = cc

  -- The same for an operation that returns a value behind its journal entry.
  pub Extends-journal :
      (now : ℕ) (op : JournalOp) (s u : StateInner) (a b : A)
      → Journaled s
      → u.journal ≡ s.journal
      → (and_then (journal_op op u) (λ _. pure a)).0 ≡ ok b
      → ((t : StateInner) → Same s t → Same u (apply_one now t op))
      → Extends now s (and_then (journal_op op u) (λ _. pure a)).1
  Extends-journal now op s u a b j kept h change =
      rw (pure-state (journal_op op u) a)
        (Extends-step now op s u j kept (pure-ok (journal_op op u) a b h) change)

-- A change of what the journal leaves out.
pub Extends-silent :
    (now : ℕ) (s u : StateInner)
    → Journaled s
    → u.journal ≡ s.journal
    → ((t : StateInner) → Same s t → Same u t)
    → Extends now s u
unfolding apply_all
Extends-silent now s u (w, e) kept change = record {
  ops = [];
  attached = (w, kept ∙ e);
  written = rw (kept, e) (sym (append-nil w.lines));
  replays = change;
}

-- Overwriting a node by one with the same stable part changes nothing that is replayed.
pub stable_nodes-insert :
    (id : String) (node node' : NodeInfo) (nodes : HashMap NodeInfo)
    → get id nodes ≡ some node
    → stable node' ≡ stable node
    → stable_nodes (insert id node' nodes) ≡ stable_nodes nodes
stable_nodes-insert id node node' nodes found e =
    rw (map_values-insert stable id node' nodes, e)
      (insert_same id (stable node) (stable_nodes nodes)
        (get-map_values stable id nodes node found))
