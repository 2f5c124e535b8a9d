-- ===== src/Pbft/Leaders.antt =====
-- The leader of a view.
use distribute_pki.Base.{
  ℕ, ◌%◌, ◌^◌, ◌<◌, ◌≡◌, some, arith, nat_eq, string_eq, length, get_elem?, get_elem?-lt,
}
use distribute_pki.Pbft.Messages.{NodeConfig, ClusterConfig}
use distribute_pki.Pbft.Library.{Library}
use distribute_pki.Pbft.Config.{uint32, leader_for}

module _ (lib : Library) where
  -- In a cluster of at least one node and fewer than 2^32 every view has a leader, and it is the id of
  -- a node of the cluster.
  pub leader_for-member :
      (c : ClusterConfig) (view : ℕ)
      → 0 < length c.nodes
      → length c.nodes < 2 ^ 32
      → (i : ℕ) × (node : NodeConfig) × (get_elem? c.nodes i ≡ some node)
        × (leader_for lib c view ≡ some node.id)
  unfolding leader_for
  leader_for-member c view lo hi =
      let i : ℕ = lib.hash_uint32 (uint32 view) % uint32 (length c.nodes) in
      let bound : i < length c.nodes = omega arith in
      let (node, e) = get_elem?-lt c.nodes i bound in (i, node, e, ground arith)
