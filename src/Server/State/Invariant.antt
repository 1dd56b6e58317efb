-- ===== src/Server/State/Invariant.antt =====
-- What the server's operations keep true of its state: keys are the ids of the records, the
-- allocator is valid, and a task that waits for a node holds no address.
use bigtop.Common.{
  ◌≡◌, true, false, none, some, HashMap, get, insert, arith, get-insert, get-remove, eq_iff,
  UniqueKeys, UniqueKeys-insert,
}
use bigtop.Core.Ids.{TaskId, NodeId}
use bigtop.Core.Types.{Task, NodeInfo, is_pending}
use bigtop.Server.Ipam.{Ipam, release}
use bigtop.Server.Ipam.Valid.{Valid}
use bigtop.Server.State.{StateInner}

-- The entries for nodes are filed under their ids, each once.
pub record NodesById (nodes : HashMap NodeInfo) : Type 0 where
  pub unique : UniqueKeys nodes
  pub filed : (k : NodeId) (node : NodeInfo) → get k nodes ≡ some node → node.id ≡ k

-- A pending task holds no address.
abbrev pub PendingFree : HashMap Task → Ipam → Type 0
PendingFree tasks ipam =
    (k : TaskId) (task : Task)
    → get k tasks ≡ some task
    → is_pending task.state ≡ true
    → get k ipam.allocated ≡ none

pub record Inv (s : StateInner) : Type 0 where
  pub nodes : NodesById s.nodes
  pub ipam : Valid s.ipam
  pub tasks : UniqueKeys s.tasks
  pub waiting : PendingFree s.tasks s.ipam

pub NodesById-insert :
    (id : NodeId) (node : NodeInfo) (nodes : HashMap NodeInfo)
    → node.id ≡ id
    → NodesById nodes
    → NodesById (insert id node nodes)
NodesById-insert id node nodes own v = record {
  unique = UniqueKeys-insert id node nodes v.unique;
  filed = λ k n g. ground (arith, get-insert id k node nodes, eq_iff id k, v.filed k n);
}

-- Fewer addresses are held.
pub PendingFree-release :
    (id : TaskId) (tasks : HashMap Task) (p : Ipam)
    → PendingFree tasks p
    → PendingFree tasks (release p id).1
unfolding release
PendingFree-release id tasks p free k task g w =
    ground (arith, get-remove id k p.allocated, free k task g w)

-- A task that is not pending may hold what it likes.
pub PendingFree-insert :
    (id : TaskId) (task : Task) (tasks : HashMap Task) (p : Ipam)
    → is_pending task.state ≡ false
    → PendingFree tasks p
    → PendingFree (insert id task tasks) p
PendingFree-insert id task tasks p busy free k other g w =
    ground (arith, get-insert id k task tasks, free k other)

-- A pending task may be filed under an id that holds nothing.
pub PendingFree-insert_free :
    (id : TaskId) (task : Task) (tasks : HashMap Task) (p : Ipam)
    → get id p.allocated ≡ none
    → PendingFree tasks p
    → PendingFree (insert id task tasks) p
PendingFree-insert_free id task tasks p unheld free k other g w =
    ground (arith, get-insert id k task tasks, eq_iff id k, free k other)

-- Behind `release`, the task holds nothing.
pub get-release : (p : Ipam) (id : TaskId) → get id (release p id).1.allocated ≡ none
unfolding release
get-release p id = ground (arith, get-remove id id p.allocated, eq_iff id id)
