-- ===== src/Pbft/Start.antt =====
-- Steps 1 to 3 of `StartNode` of src/pbft/node.go: the node's own key, the peers, and the fields that do
-- not change. `none` ends the process: a fatal log, or the first entry of an empty key file. Reading and
-- decrypting are parameters; the wrong number of keys in a file is only logged.
use distribute_pki.Base.{
  ℕ, String, Bool, ◌&&◌, ◌||◌, Option, none, some, List, [], ◌∷◌, ◌++◌, leb, ◌==◌, if◌then◌else◌,
  nat_eq, string_eq, Result, ok, err, and_then, Map, put,
}
use distribute_pki.Util.Hostname.{get_hostname}
use distribute_pki.Pbft.Messages.{NodeId, EntityFingerprint, NodeConfig, ClusterConfig}
use distribute_pki.Pbft.Json.{Text}
use distribute_pki.Pbft.Library.{Library, Host}
use distribute_pki.Pbft.Node.{Node, init}

-- The white space that strings.TrimSpace cuts off.
unfoldable pub is_space : ℕ → Bool
is_space c =
    (leb 9 c && leb c 13)
    || (c == 32)
    || (c == 133)
    || (c == 160)
    || (c == 5760)
    || (leb 8192 c && leb c 8202)
    || (c == 8232)
    || (c == 8233)
    || (c == 8239)
    || (c == 8287)
    || (c == 12288)

unfoldable pub trim_left : Text → Text
trim_left [] = []
trim_left (c ∷ t) = let rest = trim_left t in if is_space c then rest else c ∷ t

unfoldable pub trim_right : Text → Text
trim_right [] = []
trim_right (c ∷ t) = elim (trim_right t) [
  | [] ↦ if is_space c then [] else c ∷ []
  | d ∷ u ↦ c ∷ d ∷ u
]

-- strings.TrimSpace
unfoldable pub trim_space : Text → Text
trim_space t = trim_right (trim_left t)

-- ReadPgpKeyFile, ioutil.ReadFile, and entity.PrivateKey.Decrypt with the entity it leaves
pub record KeyFiles (lib : Library) : Type 0 where
  pub read_pgp_key_file : String → Result (List lib.Entity)
  pub read_file : String → Result Text
  pub decrypt : lib.Entity → Text → Result lib.Entity

module _ (lib : Library) (files : KeyFiles lib) where
  pub record Peers : Type 0 where
    pub peermap : Map NodeId String
    pub host_to_peer : Map String NodeId
    pub peer_entity_map : Map EntityFingerprint NodeId
    pub peer_entities : List lib.Entity

  abbrev pub no_peers : Peers
  no_peers = record { peermap = []; host_to_peer = []; peer_entity_map = []; peer_entities = [] }

  -- The first key of a file
  unfoldable pub first_key : String → Option lib.Entity
  first_key path = elim (files.read_pgp_key_file path) [
    | err e ↦ none
    | ok list ↦ elim list [ [] ↦ none | entity ∷ rest ↦ some entity ]
  ]

  -- Step 1: the private key, decrypted.
  unfoldable pub host_entity : NodeConfig → Option lib.Entity
  host_entity host = and_then (first_key host.private_key_file) λ entity.
      elim (files.read_file host.pass_phrase_file) [
        | err e ↦ none
        | ok phrase ↦ elim (files.decrypt entity (trim_space phrase)) [
          | err e ↦ none
          | ok decrypted ↦ some decrypted
        ]
      ]

  -- A round of the loop of step 2.
  unfoldable pub add_peer : NodeConfig → Peers → Option Peers
  add_peer p peers =
      let hostname : String = get_hostname p.host p.port in
      and_then (first_key p.public_key_file) λ entity. some (record {
        peermap = put p.id hostname peers.peermap;
        host_to_peer = put hostname p.id peers.host_to_peer;
        peer_entity_map = put (lib.fingerprint entity) p.id peers.peer_entity_map;
        peer_entities = peers.peer_entities ++ entity ∷ [];
      })

  unfoldable pub add_peers : NodeId → List NodeConfig → Peers → Option Peers
  add_peers id [] peers = some peers
  add_peers id (p ∷ nodes) peers =
      and_then (if p.id == id then some peers else add_peer p peers) (add_peers id nodes)

  unfoldable pub start_host : NodeConfig → ClusterConfig → Option (Host lib)
  start_host host cluster = and_then (host_entity host) λ entity.
      and_then (add_peers host.id cluster.nodes no_peers) λ peers. some (record {
        id = host.id;
        peermap = peers.peermap;
        cluster = cluster;
        entity = entity;
        peer_entity_map = peers.peer_entity_map;
        peer_entities = peers.peer_entities;
      })

  -- `StartNode`, where the port can be listened on or not.
  unfoldable pub start_node : Bool → NodeConfig → ClusterConfig → Option (Host lib × Node)
  start_node listens host cluster =
      and_then (start_host host cluster) λ me. if listens then some (me, init lib me) else none
