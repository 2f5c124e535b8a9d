-- ===== src/Server/ProcessExamples.antt =====
-- The processes of a cluster of two nodes.
use distribute_pki.Base.{ℕ, ◌+◌, String, true, false, [], ◌∷◌, nat_eq, string_eq, Result, ok}
use distribute_pki.Pbft.Messages.{NodeConfig, ClusterConfig}
use distribute_pki.Server.Commands.{Flags}

abbrev node_config : ℕ → NodeConfig
node_config i = record {
  client_port = 8000 + i;
  host = "localhost";
  id = i;
  port = 9000 + i;
  private_key_file = "";
  public_key_file = "";
  pass_phrase_file = "";
}

abbrev pair : ClusterConfig
pair = record {
  nodes = node_config 1 ∷ node_config 2 ∷ [];
  authority_key_file = "";
  endpoint = "/pbft";
}

-- The file has a third node.
abbrev read : String → Result (ClusterConfig × ℕ)
read file = ok (record pair { nodes = node_config 1 ∷ node_config 2 ∷ node_config 3 ∷ [] }, 1)

abbrev flags : Flags
flags = record {
  config_file = "cluster.json";
  cluster = true;
  num = 2;
  debug = false;
  id = 1;
  keystore_file = "keys.json";
}
