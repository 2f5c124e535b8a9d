-- ===== src/Pbft/Config.antt =====
-- `LeaderFor` of src/pbft/common.go. The view is cut to a uint32 before it is hashed, and so is the
-- number of nodes; with no nodes the division panics, which is `none`.
use distribute_pki.Base.{ℕ, ◌%◌, ◌^◌, Option, none, ◌==◌, if◌then◌else◌, length, get_elem?}
use mathlib.Core.Option
use distribute_pki.Pbft.Messages.{NodeId, NodeConfig, ClusterConfig}
use distribute_pki.Pbft.Library.{Library}

abbrev pub uint32 : ℕ → ℕ
uint32 n = n % 2 ^ 32

module _ (lib : Library) where
  unfoldable pub leader_for : ClusterConfig → ℕ → Option NodeId
  leader_for c view_number =
      if uint32 (length c.nodes) == 0
      then none
      else Option.map (λ (node : NodeConfig). node.id)
          (get_elem? c.nodes (lib.hash_uint32 (uint32 view_number) % uint32 (length c.nodes)))
