-- ===== src/Server/State/Nodes.antt =====
-- state.rs: `register_node` and `heartbeat`. The generated node id is an argument.
use bigtop.Common.{ℕ, String, Option, none, some, get, insert}
use Prim.Native.String.{◌++◌ as append}
use bigtop.Core.Ids.{NodeId}
use bigtop.Core.Error.{not_found}
use bigtop.Core.Network.{Ipv4Addr}
use bigtop.Core.Resources.{Resources}
use bigtop.Core.Resources
use bigtop.Core.Types.{NodeInfo}
use bigtop.Server.Journal.{JournalOp}
use bigtop.Server.State.{Exec, ◌>>=◌, ◌>>◌, pure, gets, modify, ok_or, journal_op}

abbrev pub new_node : NodeId → String → String → Resources → Option Ipv4Addr → ℕ → NodeInfo
new_node id name addr total underlay_ip now = record {
  id = id;
  name = name;
  addr = addr;
  underlay_ip = underlay_ip;
  total = total;
  used = Resources.default;
  last_heartbeat = now;
}

unfoldable pub register_node :
    NodeId → String → String → Resources → Option Ipv4Addr → ℕ → Exec NodeId
register_node id name addr total underlay_ip now =
    let node = new_node id name addr total underlay_ip now in
    do
      modify (λ s. record s { nodes = insert id node s.nodes })
      journal_op (JournalOp.register_node node)
      pure id

-- A heartbeat without an address keeps the old one.
abbrev pub or_old : Option Ipv4Addr → Option Ipv4Addr → Option Ipv4Addr
or_old none old = old
or_old (some ip) old = some ip

unfoldable pub heartbeat : NodeId → Option Ipv4Addr → ℕ → Exec (Unit {0})
heartbeat id underlay_ip now = do
  found ← gets (λ s. get id s.nodes)
  node ← ok_or found (not_found (append "node " id))
  modify (λ s. record s {
    nodes =
        insert id
          (record node { last_heartbeat = now; underlay_ip = or_old underlay_ip node.underlay_ip })
          s.nodes;
  })
