-- ===== src/Pbft/Starting.antt =====
-- The peers that a node starts with.
use distribute_pki.Base.{
  ℕ, ◌+◌, ◌*◌, ◌≡◌, refl, ap, ◌∙◌, ◌⊎◌, inl, inr, Bool, true, false, not, ◌&&◌, ◌||◌, none, some,
  List, [], ◌∷◌, arith, ◌==◌, if◌then◌else◌, ==_iff, Bool-cases, Option-cases, is_some, nat_eq,
  string_eq, length, count, Map, get, put, get-put,
}
use distribute_pki.Util.Hostname.{get_hostname}
use distribute_pki.Pbft.Messages.{NodeId, NodeConfig, ClusterConfig}
use distribute_pki.Pbft.Library.{Library, Host}
use distribute_pki.Pbft.Node.{two_f}
use distribute_pki.Pbft.Start.{
  KeyFiles, Peers, host_entity, add_peer, no_peers, add_peers, start_host,
}

abbrev pub has_node : NodeId → List NodeConfig → Bool
has_node id [] = false
has_node id (p ∷ nodes) = p.id == id || has_node id nodes

-- No id stands twice in a configuration.
abbrev pub HasDistinctIds : List NodeConfig → Type 0
HasDistinctIds [] = Unit
HasDistinctIds (p ∷ nodes) = (has_node p.id nodes ≡ false) × HasDistinctIds nodes

length-put_new :
    {V : Type 0} (k : NodeId) (v : V) (m : Map NodeId V)
    → get k m ≡ none
    → length (put k v m) ≡ length m + 1
unfolding get put
length-put_new k v [] h = refl
length-put_new k v ((j, w) ∷ m) h = ground (arith, length-put_new k v m)

abbrev others : NodeId → List NodeConfig → ℕ
others id nodes = count (λ (p : NodeConfig). not (p.id == id)) nodes

others-absent :
    (id : NodeId) (nodes : List NodeConfig)
    → has_node id nodes ≡ false
    → others id nodes ≡ length nodes
others-absent id [] h = refl
others-absent id (p ∷ nodes) h = ground (arith, others-absent id nodes)

others-member :
    (id : NodeId) (nodes : List NodeConfig)
    → HasDistinctIds nodes
    → has_node id nodes ≡ true
    → others id nodes + 1 ≡ length nodes
others-member id [] d h = ground arith
others-member id (p ∷ nodes) d h =
    ground (arith, others-absent id nodes, others-member id nodes d.1, ==_iff p.id id)

module _ (lib : Library) (files : KeyFiles lib) where
  add_peer-peermap :
      (p : NodeConfig) (peers after : Peers lib files)
      → add_peer lib files p peers ≡ some after
      → after.peermap ≡ put p.id (get_hostname p.host p.port) peers.peermap
  unfolding add_peer
  add_peer-peermap p peers after h = ground arith

  add_peers-peermap :
      (id : NodeId) (nodes : List NodeConfig) (peers after : Peers lib files) (j : NodeId)
      → add_peers lib files id nodes peers ≡ some after
      → is_some (get j after.peermap)
        ≡ (is_some (get j peers.peermap) || (not (j == id) && has_node j nodes))
  unfolding add_peers
  add_peers-peermap id [] peers after j h = ground arith
  add_peers-peermap id (p ∷ nodes) peers after j h = elim (Bool-cases (p.id == id)) [
    | inl own ↦ ground (
      arith,
      add_peers-peermap id nodes peers after j,
      ==_iff p.id id,
      ==_iff p.id j,
      ==_iff j id,
    )
    | inr other ↦ elim (Option-cases (add_peer lib files p peers)) [
      | inl e ↦ ground arith
      | inr (x, e) ↦
          let hostname = get_hostname p.host p.port in
          let first : get j x.peermap ≡ (if p.id == j then some hostname else get j peers.peermap) =
            ap (get j) (add_peer-peermap p peers x e) ∙ get-put p.id j hostname peers.peermap in
          ground (arith, add_peers-peermap id nodes x after j, first, ==_iff p.id j, ==_iff j id)
    ]
  ]

  -- The nodes to come are not among the peers.
  abbrev IsNew : List NodeConfig → Peers lib files → Type 0
  IsNew nodes peers = (j : NodeId) → (get j peers.peermap ≡ none) ⊎ (has_node j nodes ≡ false)

  add_peer-IsNew :
      (p : NodeConfig) (nodes : List NodeConfig) (peers x : Peers lib files)
      → add_peer lib files p peers ≡ some x
      → has_node p.id nodes ≡ false
      → IsNew (p ∷ nodes) peers
      → IsNew nodes x
  add_peer-IsNew p nodes peers x e d new j =
      let hostname = get_hostname p.host p.port in
      let first : get j x.peermap ≡ (if p.id == j then some hostname else get j peers.peermap) =
        ap (get j) (add_peer-peermap p peers x e) ∙ get-put p.id j hostname peers.peermap in
      ground (arith, first, new j, ==_iff p.id j)

  add_peer-length :
      (p : NodeConfig) (nodes : List NodeConfig) (peers x : Peers lib files)
      → add_peer lib files p peers ≡ some x
      → IsNew (p ∷ nodes) peers
      → length x.peermap ≡ length peers.peermap + 1
  add_peer-length p nodes peers x e new =
      ap length (add_peer-peermap p peers x e)
      ∙ length-put_new p.id (get_hostname p.host p.port) peers.peermap
          (ground (arith, new p.id, ==_iff p.id p.id))

  add_peers-length :
      (id : NodeId) (nodes : List NodeConfig) (peers after : Peers lib files)
      → add_peers lib files id nodes peers ≡ some after
      → HasDistinctIds nodes
      → IsNew nodes peers
      → length after.peermap ≡ length peers.peermap + others id nodes
  unfolding add_peers
  add_peers-length id [] peers after h d new = ground arith
  add_peers-length id (p ∷ nodes) peers after h d new = elim (Bool-cases (p.id == id)) [
    | inl own ↦ ground (
      arith,
      add_peers-length id nodes peers after (ground arith) d.1 (λ j. ground (arith, new j)),
    )
    | inr other ↦ elim (Option-cases (add_peer lib files p peers)) [
      | inl e ↦ ground arith
      | inr (x, e) ↦ ground (
        arith,
        add_peers-length id nodes x after (ground arith) d.1
            (add_peer-IsNew p nodes peers x e d.0 new),
        add_peer-length p nodes peers x e new,
      )
    ]
  ]

  start_host-add_peers :
      (host : NodeConfig) (cluster : ClusterConfig) (me : Host lib)
      → start_host lib files host cluster ≡ some me
      → (peers : Peers lib files) × (add_peers lib files host.id cluster.nodes (no_peers lib files)
          ≡ some peers)
        × (me.peermap ≡ peers.peermap)
        × (me.id ≡ host.id)
  unfolding start_host
  start_host-add_peers host cluster me h =
      elim (Option-cases (add_peers lib files host.id cluster.nodes (no_peers lib files))) [
        | inl e ↦ ground (arith, Option-cases (host_entity lib files host))
        | inr (peers, e) ↦ (
          peers,
          e,
          ground (arith, Option-cases (host_entity lib files host)),
          ground (arith, Option-cases (host_entity lib files host)),
        )
      ]

  -- If a node starts in a cluster of 3f + 1 nodes with distinct ids, itself among them, its peers are
  -- the other nodes of the configuration, and its quorum is 2f.
  pub start_host-quorum :
      (host : NodeConfig) (cluster : ClusterConfig) (me : Host lib) (f : ℕ)
      → start_host lib files host cluster ≡ some me
      → HasDistinctIds cluster.nodes
      → has_node host.id cluster.nodes ≡ true
      → length cluster.nodes ≡ 3 * f + 1
      → ((j : NodeId) → is_some (get j me.peermap) ≡ (not (j == me.id) && has_node j cluster.nodes))
        × (length me.peermap ≡ 3 * f)
        × (two_f lib me ≡ 2 * f)
  unfolding start_host get
  start_host-quorum host cluster me f h d member size =
      let (peers, e, same, own) = start_host-add_peers host cluster me h in
      let counted : length me.peermap ≡ 3 * f = ground (
        arith,
        ap length same,
        add_peers-length host.id cluster.nodes (no_peers lib files) peers e d (λ j. inl refl),
        others-member host.id cluster.nodes d member,
        size,
      ) in
      (
        λ j. ground (
          arith,
          ap (get j) same,
          own,
          add_peers-peermap host.id cluster.nodes (no_peers lib files) peers j e,
        ),
        counted,
        omega (arith, counted),
      )
