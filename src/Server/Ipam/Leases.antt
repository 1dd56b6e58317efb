-- ===== src/Server/Ipam/Leases.antt =====
-- The life of one task's address: handed out once, found again, given back.
use bigtop.Common.{
  ◌≡◌, ◌≢◌, true, false, Option, none, some, arith, get, get-insert_self, get-insert_ne,
  remove-insert, Option-cases, inl, inr,
}
use bigtop.Core.Ids.{NodeId, TaskId}
use bigtop.Core.Network.{Ipv4Addr, ipv4}
use bigtop.Server.Ipam.Valid.{Valid, allocate-Valid}
use bigtop.Server.Ipam.Contract.{allocate-Fresh, Exhausted, allocate-none}
use bigtop.Server.Ipam.{Ipam, allocate, release, gateway_for, assigned}

-- A task that holds an address gets it again, from whatever node it asks, and nothing changes.
allocate_again :
    (p : Ipam) (node_id : NodeId) (task_id : TaskId) (ip : Ipv4Addr)
    → get task_id p.allocated ≡ some ip
    → allocate p node_id task_id ≡ (some ip, p)
unfolding allocate
allocate_again p node_id task_id ip held = rw (held, allocate)

-- What the pool knows after it has handed `ip` to `task_id`.
pub record Leased (p q : Ipam) (task_id : TaskId) (ip : Ipv4Addr) : Type 0 where
  pub held : assigned q task_id ≡ some ip
  pub again : (node_id : NodeId) → allocate q node_id task_id ≡ (some ip, q)
  pub alone : (u : TaskId) → assigned q u ≡ some ip → u ≡ task_id
  pub others : (u : TaskId) → u ≢ task_id → assigned q u ≡ assigned p u

-- On a valid allocator, an address that `allocate` returns is held by the task and by no other task,
-- is returned again by every later request of that task, and every other task keeps its own.
allocate-Leased :
    (p : Ipam) (node_id : NodeId) (task_id : TaskId) (ip : Ipv4Addr)
    → Valid p
    → (allocate p node_id task_id).0 ≡ some ip
    → Leased p (allocate p node_id task_id).1 task_id ip
unfolding assigned
allocate-Leased p node_id task_id ip v h = record {
  held = held;
  again = λ n. allocate_again q n task_id ip held;
  alone = λ u g. (allocate-Valid p node_id task_id v).ip_unique u task_id ip g held;
  others = λ u ne. elim (Option-cases (get task_id p.allocated)) [
    | inr (old, here) ↦ ground (arith, allocate_again p node_id task_id old here)
    | inl unheld ↦
        let f = allocate-Fresh p node_id task_id ip unheld h in
        ground (arith, f.allocated, get-insert_ne task_id u ip p.allocated)
  ];
}
  where
    q : Ipam
    q = (allocate p node_id task_id).1

    held : get task_id q.allocated ≡ some ip
    held = elim (Option-cases (get task_id p.allocated)) [
      | inr (old, here) ↦ ground (arith, allocate_again p node_id task_id old here)
      | inl unheld ↦
          let f = allocate-Fresh p node_id task_id ip unheld h in
          ground (arith, f.allocated, get-insert_self task_id ip p.allocated)
    ]

-- A task that held nothing and gets an address gets one of the node's own `/24`: the node's gateway
-- is that address with the last octet 1.
pub gateway_for-allocate :
    (p : Ipam) (node_id : NodeId) (task_id : TaskId) (ip : Ipv4Addr)
    → get task_id p.allocated ≡ none
    → (allocate p node_id task_id).0 ≡ some ip
    → gateway_for (allocate p node_id task_id).1 node_id ≡ some (ipv4 ip.o0 ip.o1 ip.o2 1)
unfolding gateway_for
gateway_for-allocate p node_id task_id ip unheld h =
    let f = allocate-Fresh p node_id task_id ip unheld h in
    ground (arith, f.subnet, f.address, f.base0, f.base1)

-- Releasing an address that was handed out to a task that held nothing reports success and gives
-- back the pool of addresses as it was, and a second release reports that there was nothing to
-- release.
release-allocate :
    (p : Ipam) (node_id : NodeId) (task_id : TaskId) (ip : Ipv4Addr)
    → get task_id p.allocated ≡ none
    → (allocate p node_id task_id).0 ≡ some ip
    → let r = release (allocate p node_id task_id).1 task_id in
      (r.0 ≡ true) × (r.1.allocated ≡ p.allocated) × ((release r.1 task_id).0 ≡ false)
unfolding release
release-allocate p node_id task_id ip unheld h =
    let f = allocate-Fresh p node_id task_id ip unheld h in
    ground (
      arith,
      f.allocated,
      remove-insert task_id ip p.allocated,
      get-insert_self task_id ip p.allocated,
    )

-- The two ways in which a request can end.
pub data Outcome (p : Ipam) (node_id : NodeId) (task_id : TaskId) (r : Option Ipv4Addr × Ipam)
    : Type 0 where
  leased : (ip : Ipv4Addr) → r.0 ≡ some ip → Leased p r.1 task_id ip → Outcome p node_id task_id r
  refused :
      r.0 ≡ none
      → r.1 ≡ p
      → get task_id p.allocated ≡ none
      → Exhausted p node_id
      → Outcome p node_id task_id r

-- On a valid allocator a request either returns an address that the task then holds and no other
-- task does, that every later request of the task returns again, and that leaves every other task
-- its own; or it returns nothing, changes nothing, and the address space is exhausted: the node has
-- no `/24` and all 256 are taken, or every host octet from 2 to 254 of its `/24` is in use.
pub allocate-Outcome :
    (p : Ipam) (node_id : NodeId) (task_id : TaskId)
    → Valid p
    → Outcome p node_id task_id (allocate p node_id task_id)
allocate-Outcome p node_id task_id v = elim (Option-cases (allocate p node_id task_id).0) [
  | inl nothing ↦
      let (same, unheld, full) = allocate-none p node_id task_id v nothing in
      refused nothing same unheld full
  | inr (ip, e) ↦ leased ip e (allocate-Leased p node_id task_id ip v e)
]
