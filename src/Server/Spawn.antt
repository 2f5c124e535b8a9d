-- ===== src/Server/Spawn.antt =====
-- `SpawnKeyNode` of src/distributepki/keynode.go and `StartNode` of src/distributepki/main.go: a key
-- server with its consensus node. Reading the authority's key ring is a parameter; `none` ends the
-- process, by a fatal log of the consensus node or since there is no key server to start.
use distribute_pki.Base.{
  String, Bool, Option, none, some, [], nat_eq, string_eq, Result, ok, err, and_then, Map,
}
use distribute_pki.Pbft.Messages.{NodeId, NodeConfig, ClusterConfig}
use distribute_pki.Pbft.Library.{Library, Host}
use distribute_pki.Pbft.Node.{Node}
use distribute_pki.Pbft.Start.{KeyFiles, start_node}
use distribute_pki.Server.Keystore.{Keystore, new_keystore}
use distribute_pki.Server.KeyNode.{KeyNode}
use distribute_pki.Server.Commands.{zero_config, this_node}

module _ (lib : Library) (files : KeyFiles lib) {Ring : Type 0}
    (read_ring : String → Result Ring) where
  pub record KeyServer : Type 1 where
    pub keyring : Ring
    pub consensus_host : Host lib
    pub consensus_node : Node
    pub key_node : KeyNode

  unfoldable pub spawn_key_node : Bool → NodeConfig → ClusterConfig → Keystore → Option KeyServer
  spawn_key_node listens config cluster store = elim (read_ring cluster.authority_key_file) [
    | err e ↦ none
    | ok ring ↦ and_then (start_node lib files listens config cluster) λ started. some (record {
      keyring = ring;
      consensus_host = started.0;
      consensus_node = started.1;
      key_node = record { store = store; pending = []; proposed = []; snapshot_replies = [] };
    })
  ]

  unfoldable pub start_key_server :
      Bool → NodeId → Map String String → ClusterConfig → Option KeyServer
  start_key_server listens id initial_key_table cluster =
      spawn_key_node listens (this_node id cluster.nodes zero_config) cluster
        (new_keystore initial_key_table)
