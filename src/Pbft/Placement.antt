-- ===== src/Pbft/Placement.antt =====
-- What the primary keeps of a client's request, and a backup of a pre-prepare that it places.
use distribute_pki.Base.{
  ◌+◌, ◌≤◌, String, ◌≡◌, ◌≢◌, inl, inr, true, false, none, some, ◌∷◌, arith, ◌==◌, is_some, nat_eq,
  string_eq, Result-cases, ok, get, put, get-put_self,
}
use distribute_pki.Pbft.SlotId.{SlotId, slot_id_eq}
use distribute_pki.Pbft.Messages.{
  NodeId, Digest, PrePrepare, SignedPrePrepare, FullPrePrepare, Slot,
}
use distribute_pki.Pbft.Library.{Library, SignaturesCheck, Host}
use distribute_pki.Pbft.Signing.{
  signer_id, sign_pre_prepare, sign_prepare, pre_prepare_signature_valid,
}
use distribute_pki.Pbft.Node.{
  Node, unset, broadcast, pre_prepare, empty_slot, ensure_mapping, is_primary,
}
use distribute_pki.Pbft.Normal.{
  prepare_for, issued_id, issue, store_pre_prepare, handle_client_request, generate_digest,
  accept_pre_prepare, fill_slot, place_pre_prepare,
}
use distribute_pki.Pbft.Votes.{IsPeer, slot_at, slot_at-ensure_mapping}

module _ (lib : Library) where
  -- The primary of its view, when a request comes that it has not seen.
  pub record IsLeading (leader : Host lib) (request : String) (l : Node) : Type 0 where
    pub primary : is_primary lib leader l ≡ true
    pub idle : l.view_change.in_progress ≡ false
    pub fresh : is_some (get (lib.sha256 request) l.requests) ≡ false

  -- A backup in the same view of the same cluster, that can take the slot that the primary issues next.
  pub record IsFollowing (leader backup : Host lib) (l b : Node) : Type 0 where
    pub same_cluster : backup.cluster ≡ leader.cluster
    pub same_view : b.view_number ≡ l.view_number
    pub another : (leader.id == backup.id) ≡ false
    pub known : IsPeer lib backup leader.entity leader.id
    pub hostname : String
    pub met : get leader.id backup.peermap ≡ some hostname
    pub idle : b.view_change.in_progress ≡ false
    pub timer : b.timeout_timer ≢ unset
    pub empty : (slot_at (issued_id lib leader l) b).request ≡ none
    pub above : b.last_checkpoint.number.seq_number ≤ l.issued_sequence_number
    pub below : l.issued_sequence_number + 1 ≤ b.last_checkpoint.number.seq_number + 300

  pub pre_prepare_signature_valid-sign :
      (me : Host lib) (m : PrePrepare) (entity : lib.Entity) (id : NodeId) {s : SignedPrePrepare}
      → SignaturesCheck lib
      → IsPeer lib me entity id
      → sign_pre_prepare lib m entity ≡ ok s
      → pre_prepare_signature_valid lib me.peer_entities me.peer_entity_map s ≡ ok id
  unfolding sign_pre_prepare pre_prepare_signature_valid signer_id
  pre_prepare_signature_valid-sign me m entity id {s} check peer h =
      elim (Result-cases (lib.encode_pre_prepare m)) [
        | inl (e, p) ↦ ground arith
        | inr (text, p) ↦ elim (Result-cases (lib.detach_sign entity text)) [
          | inl (e, q) ↦ ground arith
          | inr (signature, q) ↦
              ground
                (arith, check entity me.peer_entities text signature peer.in_ring q, peer.named)
        ]
      ]

  -- The slot of a request and its digest
  abbrev pub ShowsRequest : SlotId → String → Digest → Node → Type 0
  ShowsRequest number request digest n =
      ((slot_at number n).request ≡ some request) × ((slot_at number n).request_digest ≡ digest)

  pub issue-sends :
      (leader : Host lib) (request : String) (l : Node) {signed : SignedPrePrepare}
      → IsLeading leader request l
      → sign_pre_prepare lib
          (record { number = issued_id lib leader l; request_digest = lib.sha256 request })
          leader.entity
        ≡ ok signed
      → ((handle_client_request lib leader request l).sent
          ≡ broadcast (pre_prepare (record { signed_message = signed; request = request }))
            ∷ l.sent)
        × ShowsRequest
            (issued_id lib leader l)
            request
            (lib.sha256 request)
            (handle_client_request lib leader request l)
  unfolding handle_client_request generate_digest issue store_pre_prepare is_primary
  issue-sends leader request l {signed} h e =
      let stored : Slot = record empty_slot {
        request = some request;
        request_digest = lib.sha256 request;
        preprepare = some signed;
      } in
      let put_self = get-put_self (issued_id lib leader l) stored l.log in
      (
        ground (arith, h.primary, h.idle, h.fresh),
        (
          ground (arith, h.primary, h.idle, h.fresh, put_self),
          ground (arith, h.primary, h.idle, h.fresh, put_self),
        ),
      )

  abbrev pub filled_slot : FullPrePrepare → Slot → Slot
  filled_slot full slot = record slot {
    request = some full.request;
    request_digest = full.signed_message.message.request_digest;
    preprepare = some full.signed_message;
  }

  accept_pre_prepare-slot :
      (me : Host lib) (full : FullPrePrepare) (slot : Slot) (n : Node)
      → ShowsRequest full.signed_message.message.number full.request
          full.signed_message.message.request_digest
          (accept_pre_prepare lib me full slot n)
  unfolding accept_pre_prepare
  accept_pre_prepare-slot me full slot n =
      let number : SlotId = full.signed_message.message.number in
      elim (Result-cases
        (sign_prepare lib (prepare_for lib me full.signed_message.message) me.entity)) [
          | inl (x, e) ↦ ground (arith, get-put_self number (filled_slot full slot) n.log)
          | inr (signed, e) ↦
              let voted : Slot = record (filled_slot full slot) {
                prepares = put me.id signed slot.prepares;
              } in
              ground (arith, get-put_self number voted (put number (filled_slot full slot) n.log))
        ]

  pub place_pre_prepare-slot :
      (me : Host lib) (full : FullPrePrepare) (n : Node)
      → (slot_at full.signed_message.message.number n).request ≡ none
      → ShowsRequest full.signed_message.message.number full.request
          full.signed_message.message.request_digest
          (place_pre_prepare lib me full n)
  unfolding place_pre_prepare fill_slot
  place_pre_prepare-slot me full n h =
      let (slot, n') = ensure_mapping full.signed_message.message.number n in
      ground (
        arith,
        slot_at-ensure_mapping full.signed_message.message.number n,
        accept_pre_prepare-slot me full slot n',
      )
