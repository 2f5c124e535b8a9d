-- ===== src/Server/Processes.antt =====
-- What the processes that `StartCluster` of src/distributepki/main.go starts make of their arguments.
use distribute_pki.Base.{ℕ, String, ◌≡◌, true, some, List, nat_eq, string_eq, length, Result}
use distribute_pki.Pbft.Messages.{NodeId, NodeConfig, ClusterConfig}
use distribute_pki.Pbft.Starting.{has_node}
use distribute_pki.Server.Commands.{Flags, zero_config, this_node, choose_config}

-- The arguments are those of a node among these, and the length of the whole cluster.
abbrev AreArguments : ClusterConfig → List NodeConfig → NodeId × ℕ → Type 0
AreArguments cluster nodes arguments =
    (arguments.1 ≡ length cluster.nodes) × (has_node arguments.0 nodes ≡ true)

module _ (read : String → Result (ClusterConfig × ℕ)) where
  -- A process reads the cluster that it is part of, and finds its own node there.
  pub record IsMember (flags : Flags) (cluster : ClusterConfig) (arguments : NodeId × ℕ)
      : Type 0 where
    pub config :
        choose_config read (record flags { num = arguments.1; id = arguments.0 }) ≡ some cluster
    pub node : (this_node arguments.0 cluster.nodes zero_config).id ≡ arguments.0
