-- ===== src/Server/Scheduler.antt =====
-- crates/bigtop-server/src/scheduler.rs: the scheduling pass. The JSON library's `to_string` is the
-- parameter `to_json`: the text of a map from service names to lists of addresses, or nothing.
pub mod Pick
pub mod Least
pub mod Services
pub mod Keeps
pub mod Chosen
pub mod Picked
pub mod Load
pub mod Recount
pub mod Capacity
pub mod Accounts
pub mod Orphans
pub mod Budget
pub mod Overcommit
use bigtop.Common.{
  ℕ, ◌≡◌, refl, Bool, true, false, not, ◌&&◌, Option, none, some, List, [], ◌∷◌, map, String,
  HashMap, get, insert, values, filter, any, ◌==◌, unwrap_or, if◌then◌else◌,
}
use bigtop.Common.Sort.{sort}
use mathlib.Core.List.{foldl}
use bigtop.Core.Ids.{TaskId, NodeId}
use bigtop.Core.Error.{Result, ok}
use bigtop.Core.Network.{Ipv4Addr, NetworkAssignment}
use bigtop.Core.Resources.{Resources, saturating_add}
use bigtop.Core.Resources
use bigtop.Core.Types.{Task, TaskState, TaskSpec, NodeInfo, is_alive, is_pending, holds_resources}
use bigtop.Server.Ipam
use bigtop.Server.Ipam.{Ipam, allocate, release, gateway_for, netmask}
use bigtop.Server.Journal.{JournalOp}
use bigtop.Server.State.{StateInner, Exec, ◌>>=◌, ◌>>◌, pure, gets, modify, journal_op}
use bigtop.Server.State.Tasks.{release_ip}
use Pick.{pick_node}
use Services.{services_env_for}

-- `for x in xs { body(x)?; }`
abbrev pub for_each {ℓ} : {A : Type ℓ} → (A → Exec (Unit {0})) → List A → Exec (Unit {0})
for_each body [] = pure tt
for_each body (x ∷ xs) = body x >> for_each body xs

-- `names.contains(id)`
abbrev pub contains : String → List String → Bool
contains id names = any (λ x. x == id) names

unfoldable pub dead_nodes : ℕ → StateInner → List NodeId
dead_nodes now s = map (λ node. node.id) (filter (λ node. not (is_alive node now)) (values s.nodes))

-- `assigned_node.is_some_and(|id| dead.contains(id))`
abbrev pub is_on : List NodeId → Option NodeId → Bool
is_on dead none = false
is_on dead (some id) = contains id dead

unfoldable pub orphans : List NodeId → StateInner → List TaskId
orphans dead s =
    map (λ task. task.id)
      (filter (λ task. holds_resources task.state && is_on dead task.assigned_node)
        (values s.tasks))

-- A task that goes back to the queue.
abbrev pub requeued : Task → Task
requeued task = record task { state = TaskState.pending; assigned_node = none; network = none }

-- `if let Some(task) = tasks.get_mut(id) { f }`
abbrev pub update_task : TaskId → (Task → Task) → HashMap Task → HashMap Task
update_task id f tasks = elim (get id tasks) [ none ↦ tasks | some task ↦ insert id (f task) tasks ]

unfoldable pub requeue : TaskId → Exec (Unit {0})
requeue id = do
  modify (λ s. record s { tasks = update_task id requeued s.tasks })
  release_ip id
  journal_op (JournalOp.task_requeued id)

unfoldable pub requeue_dead_nodes : ℕ → Exec (Unit {0})
unfolding dead_nodes orphans requeue
requeue_dead_nodes now s = elim (dead_nodes now s) [
  | [] ↦ (ok tt, s)
  | node ∷ dead ↦ for_each requeue (orphans (node ∷ dead) s) s
]

-- One round of the loop over the tasks in `recount_used`.
unfoldable pub hold : HashMap Resources → Task → HashMap Resources
hold held task =
    if holds_resources task.state
    then elim task.assigned_node [
      | none ↦ held
      | some node_id ↦
          insert node_id
            (saturating_add (unwrap_or Resources.default (get node_id held)) task.spec.resources)
            held
    ]
    else held

-- One round of the loop over `held`.
unfoldable pub set_used : HashMap NodeInfo → NodeId × Resources → HashMap NodeInfo
set_used nodes (node_id, used) = elim (get node_id nodes) [
  | none ↦ nodes
  | some node ↦ insert node_id (record node { used = used }) nodes
]

abbrev pub reset_used : HashMap NodeInfo → HashMap NodeInfo
reset_used nodes = map (λ e. (e.0, record e.1 { used = Resources.default })) nodes

unfoldable pub recount_used : StateInner → StateInner
unfolding hold set_used
recount_used s = record s {
  nodes = foldl set_used (reset_used s.nodes) (foldl hold [] (values s.tasks));
}

unfoldable pub pending_ids : StateInner → List TaskId
unfolding sort
pending_ids s = sort (map (λ e. e.0) (filter (λ e. is_pending e.1.state) s.tasks))

-- `task.spec.env.insert("BIGTOP_SERVICES", env)`, where there is an `env`.
abbrev pub with_services : Option String → TaskSpec → TaskSpec
with_services none spec = spec
with_services (some env) spec = record spec { env = insert "BIGTOP_SERVICES" env spec.env }

-- The task as the scheduler, or the journal, assigns it.
abbrev pub assign : NodeId → Option NetworkAssignment → Option String → Task → Task
assign node_id network services_env task = record task {
  state = TaskState.assigned;
  assigned_node = some node_id;
  network = network;
  spec = with_services services_env task.spec;
}

-- Journal the address of a placed task, if it got one.
abbrev pub journal_ip : NodeId → TaskId → Option Ipv4Addr → Exec (Unit {0})
journal_ip node_id task_id none = pure tt
journal_ip node_id task_id (some ip) = journal_op (JournalOp.ipam_allocate node_id task_id ip)

-- The rollback of an allocation whose task could not be placed.
abbrev pub roll_back : TaskId → Option Ipv4Addr → StateInner → StateInner
roll_back task_id none s = s
roll_back task_id (some ip) s = record s { ipam = (release s.ipam task_id).1 }

-- The state in which task and node are updated, and the journal entries of the placement.
unfoldable pub commit :
    TaskId
    → NodeId
    → Option Ipv4Addr
    → Option NetworkAssignment
    → Option String
    → Task
    → NodeInfo
    → Exec (Unit {0})
commit task_id node_id ip network services_env task node = do
  modify (λ s. record s {
    tasks = insert task_id (assign node.id network services_env task) s.tasks;
    nodes =
        insert node_id (record node { used = saturating_add node.used task.spec.resources })
          s.nodes;
  })
  journal_ip node_id task_id ip
  journal_op (JournalOp.task_assigned task_id node_id network services_env)

module _ (to_json : List (String × List String) → Option String) where
  -- The part of a placement behind the network.
  unfoldable pub place_on :
      TaskId → Task → NodeId → Option Ipv4Addr → Option NetworkAssignment → Exec (Unit {0})
  unfolding services_env_for commit
  place_on task_id task node_id ip network s =
      let services_env = services_env_for to_json s task in
      elim (get task_id s.tasks) [
        | none ↦ (ok tt, roll_back task_id ip s)
        | some found ↦ elim (get node_id s.nodes) [
          | none ↦ (ok tt, roll_back task_id ip s)
          | some node ↦ commit task_id node_id ip network services_env found node s
        ]
      ]

  -- An address and its gateway; the task stays pending where either is missing.
  unfoldable pub place_networked : TaskId → Task → NodeId → Option Ipv4Addr × Ipam → Exec (Unit {0})
  unfolding place_on
  place_networked task_id task node_id (none, ipam) s = (ok tt, record s { ipam = ipam })
  place_networked task_id task node_id (some ip, ipam) s = elim (gateway_for ipam node_id) [
    | none ↦ (ok tt, record s { ipam = (release ipam task_id).1 })
    | some gateway ↦
        place_on task_id task node_id (some ip)
          (some (record { ip = ip; gateway = gateway; netmask = netmask }))
          (record s { ipam = ipam })
  ]

  -- One round of the loop of `place_pending`.
  unfoldable pub place : ℕ → TaskId → Exec (Unit {0})
  unfolding place_networked
  place now task_id s = elim (get task_id s.tasks) [
    | none ↦ (ok tt, s)
    | some task ↦ elim (pick_node s task now) [
      | none ↦ (ok tt, s)
      | some node_id ↦
          if task.spec.network.enabled
          then place_networked task_id task node_id (allocate s.ipam node_id task_id) s
          else place_on task_id task node_id none none s
    ]
  ]

  unfoldable pub place_pending : ℕ → Exec (Unit {0})
  unfolding pending_ids place
  place_pending now s = for_each (place now) (pending_ids s) s

  unfoldable pub tick : ℕ → Exec (Unit {0})
  unfolding requeue_dead_nodes recount_used place_pending
  tick now = do requeue_dead_nodes now; modify recount_used; place_pending now
