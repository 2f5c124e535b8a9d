-- ===== src/Pbft/Endorsed.antt =====
-- Where the digest of a slot comes from: a pre-prepare that the leader of the slot's view signed.
pub mod Handlers
pub mod Steps
use distribute_pki.Base.{
  ℕ, zero, ◌≡◌, ◌⊎◌, true, false, none, some, arith, nat_eq, string_eq, ok, Map, get,
}
use distribute_pki.Pbft.SlotId.{SlotId, same_slot, same_slot_iff, slot_id_eq}
use distribute_pki.Pbft.Messages.{NodeId, Digest, SignedPrePrepare, Slot}
use distribute_pki.Pbft.Library.{Library, Host}
use distribute_pki.Pbft.Config.{leader_for}
use distribute_pki.Pbft.Signing.{sign_pre_prepare, pre_prepare_signature_valid}
use distribute_pki.Pbft.Node.{Node, empty_slot, ensure_mapping, get_primary}
use distribute_pki.Pbft.Contents.{Content, Everywhere}
use distribute_pki.Pbft.NewViews.{is_leader_for}

module _ (lib : Library) (me : Host lib) where
  -- The id that the node takes a view's leader to have: 0 where no peer is the leader.
  abbrev pub known_leader : ℕ → NodeId
  known_leader view = elim (leader_for lib me.cluster view) [
    | none ↦ 0
    | some leader ↦ elim (get leader me.peermap) [ none ↦ 0 | some hostname ↦ leader ]
  ]

  pub get_primary-known_leader : (n : Node) → (get_primary lib me n).0 ≡ known_leader n.view_number
  unfolding get_primary
  get_primary-known_leader n = ground arith

  -- A pre-prepare for a slot with a digest, by the leader of the slot's view: the node checked its
  -- signature against that leader, or it is the leader and signed it itself.
  pub record IsEndorsed (id : SlotId) (digest : Digest) : Type 0 where
    pub signed : SignedPrePrepare
    pub number : signed.message.number ≡ id
    pub same : signed.message.request_digest ≡ digest
    pub origin :
        ((is_leader_for lib me id.view_number ≡ false)
          × (pre_prepare_signature_valid lib me.peer_entities me.peer_entity_map signed
              ≡ ok (known_leader id.view_number)))
        ⊎ ((is_leader_for lib me id.view_number ≡ true)
            × (sign_pre_prepare lib signed.message me.entity ≡ ok signed))

  abbrev pub IsBacked : SlotId → Digest → Type 0
  IsBacked id digest = (digest ≡ 0) ⊎ IsEndorsed id digest

  abbrev pub Backing : Content
  Backing id request digest = IsBacked id digest

  -- Every digest in a log is zero or endorsed.
  abbrev pub IsSourced : Map SlotId Slot → Type 0
  IsSourced log = Everywhere Backing log
