-- ===== src/Server/Replay/Round.antt =====
-- One round of the placement loop: what it journals, and whose address it touches.
use bigtop.Common.{
  subst, ℕ, ◌≡◌, ◌≢◌, refl, sym, ap, ◌∙◌, Option, none, some, List, get, insert, arith, String,
  get-insert_ne,
}
use bigtop.Core.Ids.{TaskId, NodeId}
use bigtop.Core.Error.{ok}
use bigtop.Core.Network.{Ipv4Addr, NetworkAssignment, ipv4}
use bigtop.Core.Types.{Task, NodeInfo}
use bigtop.Server.Ipam.{Ipam, allocate, gateway_for, netmask}
use bigtop.Server.Ipam.Valid.{Valid, allocate-Valid}
use bigtop.Server.Ipam.Contract.{allocate-Fresh, allocate-none}
use bigtop.Server.Ipam.Leases.{gateway_for-allocate}
use bigtop.Server.State.{StateInner, journal_op}
use bigtop.Server.State.Invariant.{Inv}
use bigtop.Server.Scheduler.{place_on, place_networked, commit}
use bigtop.Server.Scheduler.Services.{services_env_for}
use bigtop.Server.Scheduler.Chosen.{Chosen}
use bigtop.Server.Scheduler.Keeps.{commit-Inv}
use bigtop.Server.Replay.Same.{Journaled, Extends, Extends-refl}
use bigtop.Server.Replay.Placement.{commit_plain-Extends, commit_networked-Extends}

-- Whoever else held no address in `s` holds none in `u`.
abbrev pub Frame : TaskId → StateInner → StateInner → Type 0
Frame task_id s u =
    (k : TaskId) → k ≢ task_id → get k s.ipam.allocated ≡ none → get k u.ipam.allocated ≡ none

-- What one round does.
pub record Round (later : ℕ) (task_id : TaskId) (s u : StateInner) : Type 0 where
  pub inv : Inv u
  pub extends : Extends later s u
  pub frame : Frame task_id s u

pub Round-refl :
    (later : ℕ) (task_id : TaskId) (s : StateInner) → Inv s → Journaled s → Round later task_id s s
Round-refl later task_id s v j = record {
  inv = v;
  extends = Extends-refl later s j;
  frame = λ k ne h. h;
}

-- `commit` does not touch the allocator.
ipam-commit :
    (task_id : TaskId) (node_id : NodeId) (ip : Option Ipv4Addr)
    (network : Option NetworkAssignment) (env : Option String) (task : Task) (node : NodeInfo)
    (s : StateInner)
    → (commit task_id node_id ip network env task node s).1.ipam ≡ s.ipam
unfolding commit journal_op
ipam-commit task_id node_id none network env task node s = ground arith
ipam-commit task_id node_id (some ip) network env task node s = ground arith

module _ (to_json : List (String × List String) → Option String) (now later : ℕ) (task_id : TaskId)
    (s : StateInner) (task : Task) (node_id : NodeId) (found : get task_id s.tasks ≡ some task)
    (unheld : get task_id s.ipam.allocated ≡ none) (v : Inv s) (j : Journaled s)
    (c : Chosen s task now node_id) where
  place_on-commit :
      (ip : Option Ipv4Addr) (network : Option NetworkAssignment) (p : Ipam)
      → let u : StateInner = record s { ipam = p } in
        place_on to_json task_id task node_id ip network u
        ≡ commit task_id node_id ip network (services_env_for to_json u task) task c.node u
  unfolding place_on
  place_on-commit ip network p = rw (found, c.here, place_on)

  pub plain-Round :
      (place_on to_json task_id task node_id none none s).0 ≡ ok tt
      → Round later task_id s (place_on to_json task_id task node_id none none s).1
  plain-Round h =
      subst (λ r. r.0 ≡ ok tt → Round later task_id s r.1) (sym (place_on-commit none none s.ipam))
        (λ k. record {
          inv =
              commit-Inv task_id node_id none none _ task c.node s
                (record {
                  nodes = v.nodes;
                  ipam = v.ipam;
                  tasks = v.tasks;
                  waiting = λ i other ne g w. v.waiting i other g w;
                })
                c.here;
          extends =
              commit_plain-Extends later s s.ipam task_id node_id none _ task c.node found c.here
                c.own j refl k;
          frame = λ i ne g. rw ipam-commit g;
        })
        h

  -- With an address and its gateway the placement is committed.
  networked-commit :
      (ip gateway : Ipv4Addr) (p : Ipam)
      → gateway_for p node_id ≡ some gateway
      → let u : StateInner = record s { ipam = p } in
        place_networked to_json task_id task node_id (some ip, p) s
        ≡ commit task_id node_id
            (some ip)
            (some (record { ip = ip; gateway = gateway; netmask = netmask }))
            (services_env_for to_json u task)
            task
            c.node
            u
  unfolding place_networked
  networked-commit ip gateway p e =
      rw (e, place_networked)
        (place_on-commit (some ip) (some (record { ip = ip; gateway = gateway; netmask = netmask }))
          p)

  leased-Round :
      (ip gateway : Ipv4Addr) (p : Ipam) (network : Option NetworkAssignment) (env : Option String)
      → allocate s.ipam node_id task_id ≡ (some ip, p)
      → let u : StateInner = record s { ipam = p } in
        (commit task_id node_id (some ip) network env task c.node u).0 ≡ ok tt
        → Round later task_id s (commit task_id node_id (some ip) network env task c.node u).1
  leased-Round ip gateway p network env e h = record {
    inv =
        commit-Inv task_id node_id (some ip) network env task c.node u
          (record {
            nodes = v.nodes;
            ipam =
                subst Valid (ap (λ (r : Option Ipv4Addr × Ipam). r.1) e)
                  (allocate-Valid s.ipam node_id task_id v.ipam);
            tasks = v.tasks;
            waiting = λ i other ne g w. apart i ne (v.waiting i other g w);
          })
          c.here;
    extends =
        commit_networked-Extends later s p task_id node_id network env task c.node found c.here
          c.own j ip (sym (ap (λ (r : Option Ipv4Addr × Ipam). r.1) e)) h;
    frame = λ i ne g. rw ipam-commit (apart i ne g);
  }
    where
      u : StateInner
      u = record s { ipam = p }

      apart : (i : TaskId) → i ≢ task_id → get i s.ipam.allocated ≡ none → get i p.allocated ≡ none
      apart i ne g =
          let f =
            allocate-Fresh s.ipam node_id task_id ip unheld
              (ap (λ (r : Option Ipv4Addr × Ipam). r.0) e) in
          let same : p.allocated ≡ insert task_id ip s.ipam.allocated =
            subst (λ r. r.1.allocated ≡ insert task_id ip s.ipam.allocated) e f.allocated in
          rw (same, get-insert_ne task_id i ip s.ipam.allocated ne) g

  pub networked-Round :
      (r : Option Ipv4Addr × Ipam)
      → allocate s.ipam node_id task_id ≡ r
      → (place_networked to_json task_id task node_id r s).0 ≡ ok tt
      → Round later task_id s (place_networked to_json task_id task node_id r s).1
  unfolding place_networked
  networked-Round (none, p) e h =
      subst (λ q. Round later task_id s (record s { ipam = q }))
        (sym same ∙ ap (λ (r : Option Ipv4Addr × Ipam). r.1) e) (Round-refl later task_id s v j)
    where
      same : (allocate s.ipam node_id task_id).1 ≡ s.ipam
      same =
          (allocate-none s.ipam node_id task_id v.ipam
            (ap (λ (r : Option Ipv4Addr × Ipam). r.0) e)).0
  networked-Round (some ip, p) e h =
      let g = networked-commit ip (ipv4 ip.o0 ip.o1 ip.o2 1) p (
        subst (λ r. gateway_for r.1 node_id ≡ some (ipv4 ip.o0 ip.o1 ip.o2 1)) e
          (gateway_for-allocate s.ipam node_id task_id ip unheld
            (ap (λ (r : Option Ipv4Addr × Ipam). r.0) e))) in
      subst (λ r. r.0 ≡ ok tt → Round later task_id s r.1) (sym g)
        (leased-Round ip (ipv4 ip.o0 ip.o1 ip.o2 1) p _ _ e) h
