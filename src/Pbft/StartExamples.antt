-- ===== src/Pbft/StartExamples.antt =====
-- The start of node 2 of the toy cluster, where every key file holds one key.
use distribute_pki.Base.{
  ◌≡◌, refl, true, not, ◌&&◌, none, some, [], ◌∷◌, ◌==◌, if◌then◌else◌, is_some, nat_eq, string_eq,
  length, ok, err, get, put,
}
use distribute_pki.Util.Hostname.{get_hostname, itoa, digits, digit}
use distribute_pki.Pbft.Messages.{NodeId}
use distribute_pki.Pbft.Library.{Host}
use distribute_pki.Pbft.Node.{two_f}
use distribute_pki.Pbft.Start.{
  KeyFiles, is_space, trim_left, trim_right, trim_space, first_key, host_entity, add_peer,
  add_peers, start_host,
}
use distribute_pki.Pbft.Starting.{has_node, start_host-quorum}
use distribute_pki.Pbft.Fixtures.{toy, cluster, node_config, backup}

abbrev files : KeyFiles toy
files = record {
  read_pgp_key_file = λ path. ok (7 ∷ []);
  read_file = λ path. ok (32 ∷ 112 ∷ 32 ∷ 119 ∷ 10 ∷ []);
  decrypt = λ entity phrase. if length phrase == 3 then ok entity else err "wrong";
}

abbrev me : Host toy
me = elim (start_host toy files (node_config 2) cluster) [ none ↦ backup | some host ↦ host ]

start_lem :
    (start_host toy files (node_config 2) cluster ≡ some me)
    × (has_node 2 cluster.nodes ≡ true)
    × (get 3 me.peermap ≡ some "localhost:9003")
unfolding start_host host_entity first_key add_peer add_peers trim_space trim_left trim_right
    is_space get_hostname itoa digits digit get put
start_lem = (refl, refl, refl)

start_host-quorum_example :
    ((j : NodeId) → is_some (get j me.peermap) ≡ (not (j == me.id) && has_node j cluster.nodes))
    × (length me.peermap ≡ 3)
    × (two_f toy me ≡ 2)
start_host-quorum_example =
    start_host-quorum toy files (node_config 2) cluster me 1 start_lem.0
      (refl, (refl, (refl, (refl, tt)))) start_lem.1 refl
