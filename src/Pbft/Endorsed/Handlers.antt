-- ===== src/Pbft/Endorsed/Handlers.antt =====
-- What fills a slot in the normal case is endorsed by the leader of its view.
use distribute_pki.Base.{
  ◌≡◌, refl, sym, ap, ◌∙◌, subst, inl, inr, true, false, arith, nat_eq, string_eq, ok,
}
use distribute_pki.Pbft.SlotId.{SlotId, slot_id_eq}
use distribute_pki.Pbft.Messages.{Digest, NodeId, SignedPrePrepare, FullPrePrepare, PrePrepare}
use distribute_pki.Pbft.Library.{Library, Host}
use distribute_pki.Pbft.Signing.{sign_pre_prepare, pre_prepare_signature_valid}
use distribute_pki.Pbft.Signatures.{message-sign_pre_prepare}
use distribute_pki.Pbft.Node.{Node, is_primary}
use distribute_pki.Pbft.NewViews.{is_leader_for}
use distribute_pki.Pbft.Normal.{wrong_primary}
use distribute_pki.Pbft.Endorsed.{known_leader, get_primary-known_leader, IsBacked}

module _ (lib : Library) (me : Host lib) where
  pub is_leader_for-is_primary :
      (n : Node) → is_leader_for lib me n.view_number ≡ is_primary lib me n
  unfolding is_primary
  is_leader_for-is_primary n = ground arith

  -- What a node signs as the leader of a view is endorsed.
  pub endorsed_by_leader :
      (id : SlotId) (digest : Digest) {s : SignedPrePrepare}
      → is_leader_for lib me id.view_number ≡ true
      → sign_pre_prepare lib (record { number = id; request_digest = digest }) me.entity ≡ ok s
      → IsBacked lib me id digest
  endorsed_by_leader id digest {s} l e =
      let m : PrePrepare = record { number = id; request_digest = digest } in
      let same : s.message ≡ m = message-sign_pre_prepare lib m me.entity e in
      inr (record {
        signed = s;
        number = ap (λ (k : PrePrepare). k.number) same;
        same = ap (λ (k : PrePrepare). k.request_digest) same;
        origin = inr (l, subst (λ k. sign_pre_prepare lib k me.entity ≡ ok s) (sym same) e);
      })

  -- The node checked a pre-prepare that it takes against the leader of the slot's view.
  pub checked_by_leader :
      (full : FullPrePrepare) (n : Node) {sender : NodeId}
      → pre_prepare_signature_valid lib me.peer_entities me.peer_entity_map full.signed_message
        ≡ ok sender
      → wrong_primary lib me full sender n ≡ false
      → full.signed_message.message.number.view_number ≡ n.view_number
      → pre_prepare_signature_valid lib me.peer_entities me.peer_entity_map full.signed_message
        ≡ ok (known_leader lib me full.signed_message.message.number.view_number)
  unfolding wrong_primary
  checked_by_leader full n {sender} v w e =
      subst
        (λ k.
          pre_prepare_signature_valid lib me.peer_entities me.peer_entity_map full.signed_message
          ≡ ok (known_leader lib me k))
        (sym e) (ground (arith, get_primary-known_leader lib me n))

  pub endorsed_by_sender :
      (full : FullPrePrepare) (n : Node) {sender : NodeId}
      → is_primary lib me n ≡ false
      → pre_prepare_signature_valid lib me.peer_entities me.peer_entity_map full.signed_message
        ≡ ok sender
      → wrong_primary lib me full sender n ≡ false
      → full.signed_message.message.number.view_number ≡ n.view_number
      → IsBacked lib me full.signed_message.message.number
          full.signed_message.message.request_digest
  endorsed_by_sender full n {sender} p v w e = inr (record {
    signed = full.signed_message;
    number = refl;
    same = refl;
    origin = inl (
      ap (is_leader_for lib me) e ∙ is_leader_for-is_primary n ∙ p,
      checked_by_leader full n v w e,
    );
  })
