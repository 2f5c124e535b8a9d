-- ===== src/Server/Commands.antt =====
-- src/distributepki/main.go: which configuration a process reads and what it starts. Reading a file is a
-- parameter, which gives the configuration and how many unused elements the slice of its nodes has
-- behind its end. `none` ends the process. The initial key table is empty whatever its file says.
use distribute_pki.Base.{
  ℕ, zero, suc, String, Bool, Option, none, some, List, [], ◌∷◌, ◌==◌, if◌then◌else◌, nat_eq,
  string_eq, length, Result, ok, err, and_then, Map,
}
use distribute_pki.Pbft.Messages.{NodeId, NodeConfig, ClusterConfig}
use distribute_pki.Server.Keystore.{Keystore, new_keystore}

pub record Flags : Type 0 where
  pub config_file : String
  pub cluster : Bool
  pub num : ℕ
  pub debug : Bool
  pub id : NodeId
  pub keystore_file : String

abbrev pub zero_config : NodeConfig
zero_config = record {
  client_port = 0;
  host = "";
  id = 0;
  port = 0;
  private_key_file = "";
  public_key_file = "";
  pass_phrase_file = "";
}

-- nodes[0:num], where `spare` elements stand behind the end of the slice; beyond them it panics.
unfoldable pub first_nodes : List NodeConfig → ℕ → ℕ → Option (List NodeConfig)
first_nodes nodes spare zero = some []
first_nodes (node ∷ nodes) spare (suc num) =
    and_then (first_nodes nodes spare num) λ rest. some (node ∷ rest)
first_nodes [] zero (suc num) = none
first_nodes [] (suc spare) (suc num) =
    and_then (first_nodes [] spare num) λ rest. some (zero_config ∷ rest)

-- `StartNode`'s loop over the nodes: the last one with the id, or a zero configuration.
unfoldable pub this_node : NodeId → List NodeConfig → NodeConfig → NodeConfig
this_node id [] found = found
this_node id (n ∷ nodes) found = this_node id nodes (if n.id == id then n else found)

-- The arguments of a process that `StartCluster` starts: -id and -num.
unfoldable pub process_arguments : ClusterConfig → List NodeConfig → List (NodeId × ℕ)
process_arguments cluster [] = []
process_arguments cluster (n ∷ nodes) =
    (n.id, length cluster.nodes) ∷ process_arguments cluster nodes

unfoldable pub start_cluster : ClusterConfig → List (NodeId × ℕ)
start_cluster cluster = process_arguments cluster cluster.nodes

-- What `main` starts.
pub data Started : Type 0 where
  processes : List (NodeId × ℕ) → Started
  debug_repl : ClusterConfig → Started
  a_node : NodeConfig → ClusterConfig → Keystore → Started

-- `LoadInitialKeys`: what would read the file is commented out.
unfoldable pub load_initial_keys : String → ClusterConfig → Map String String
load_initial_keys filename config = []

module _ (read : String → Result (ClusterConfig × ℕ)) where
  unfoldable pub load_config : String → Option (ClusterConfig × ℕ)
  load_config filename = elim (read filename) [ err e ↦ none | ok config ↦ some config ]

  -- Both cuts of `LoadConfigSubset` are the same cut.
  unfoldable pub load_config_subset : String → ℕ → Option ClusterConfig
  load_config_subset filename num = and_then (load_config filename) λ config.
      and_then (first_nodes config.0.nodes config.1 num) λ nodes. some (record {
        nodes = nodes;
        authority_key_file = config.0.authority_key_file;
        endpoint = config.0.endpoint;
      })

  unfoldable pub choose_config : Flags → Option ClusterConfig
  choose_config flags =
      if flags.num == 0
      then and_then (load_config flags.config_file) (λ config. some config.0)
      else load_config_subset flags.config_file flags.num

  unfoldable pub run_main : Flags → Option Started
  run_main flags = and_then (choose_config flags) λ config. some (
      if flags.cluster
      then processes (start_cluster config)
      else if flags.debug
      then debug_repl config
      else a_node (this_node flags.id config.nodes zero_config) config
          (new_keystore (load_initial_keys flags.keystore_file config)))
