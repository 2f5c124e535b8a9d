-- ===== src/Pbft/Adoption.antt =====
-- From the client's request at the primary to the slot of a backup.
use distribute_pki.Base.{
  ◌+◌, ◌≤◌, ◌<◌, String, ◌≡◌, ap, ◌∙◌, subst, ◌≢◌, inl, inr, true, false, some, ◌∷◌, arith, ==_iff,
  Option-cases, nat_eq, string_eq, ok,
}
use distribute_pki.Pbft.SlotId.{slot_id_eq}
use distribute_pki.Pbft.Messages.{NodeId, PrePrepare, SignedPrePrepare, FullPrePrepare}
use distribute_pki.Pbft.Library.{Library, SignaturesCheck, Host}
use distribute_pki.Pbft.Config.{leader_for}
use distribute_pki.Pbft.Signing.{sign_pre_prepare, pre_prepare_signature_valid}
use distribute_pki.Pbft.Node.{
  Node, unset, running, broadcast, pre_prepare, is_primary, get_primary, get_timeout,
}
use distribute_pki.Pbft.Normal.{
  issued_id, handle_client_request, generate_digest, reset_timer, in_window, is_no_op,
  place_pre_prepare, check_pre_prepare, wrong_primary, handle_pre_prepare,
}
use distribute_pki.Pbft.Votes.{slot_at}
use distribute_pki.Pbft.Signatures.{message-sign_pre_prepare}
use distribute_pki.Pbft.Placement.{
  IsLeading, IsFollowing, pre_prepare_signature_valid-sign, ShowsRequest, issue-sends,
  place_pre_prepare-slot,
}

module _ (lib : Library) where
  leader_for-is_primary :
      (me : Host lib) (n : Node)
      → is_primary lib me n ≡ true
      → leader_for lib me.cluster n.view_number ≡ some me.id
  unfolding is_primary
  leader_for-is_primary me n h = elim (Option-cases (leader_for lib me.cluster n.view_number)) [
    | inl e ↦ ground arith
    | inr (leader, e) ↦ ground (arith, ==_iff leader me.id)
  ]

  -- The backup has the primary for its primary.
  get_primary-leader :
      (leader backup : Host lib) (request : String) (l b : Node)
      → IsLeading lib leader request l
      → IsFollowing lib leader backup l b
      → (is_primary lib backup b ≡ false) × ((get_primary lib backup b).0 ≡ leader.id)
  unfolding is_primary get_primary
  get_primary-leader leader backup request l b lead f =
      let leads : leader_for lib backup.cluster b.view_number ≡ some leader.id =
        ap (λ c. leader_for lib c b.view_number) f.same_cluster
        ∙ ap (leader_for lib leader.cluster) f.same_view
        ∙ leader_for-is_primary leader l lead.primary in
      (ground (arith, leads, f.another), ground (arith, leads, f.met))

  check_pre_prepare-places :
      (full : FullPrePrepare) (backup : Host lib) (b : Node)
      → full.signed_message.message.request_digest ≡ lib.sha256 full.request
      → full.signed_message.message.number.view_number ≡ b.view_number
      → b.last_checkpoint.number.seq_number < full.signed_message.message.number.seq_number
      → full.signed_message.message.number.seq_number ≤ b.last_checkpoint.number.seq_number + 300
      → check_pre_prepare lib backup full b ≡ place_pre_prepare lib backup full b
  unfolding check_pre_prepare in_window is_no_op generate_digest
  check_pre_prepare-places full backup b d v above below = ground arith

  handle_pre_prepare-checks :
      (full : FullPrePrepare) (backup : Host lib) (b : Node) (leader : NodeId)
      → b.view_change.in_progress ≡ false
      → is_primary lib backup b ≡ false
      → (get_primary lib backup b).0 ≡ leader
      → b.timeout_timer ≢ unset
      → pre_prepare_signature_valid lib backup.peer_entities backup.peer_entity_map
          full.signed_message
        ≡ ok leader
      → handle_pre_prepare lib backup full b
        ≡ some (
            check_pre_prepare lib backup full
              (record b { timeout_timer = running (get_timeout lib backup b) }))
  unfolding handle_pre_prepare wrong_primary reset_timer
  handle_pre_prepare-checks full backup b leader idle follows primary timer valid =
      ground (arith, ==_iff leader leader)

  -- The backup comes to place the pre-prepare that the primary signed, with its timer reset.
  pub handle_pre_prepare-places :
      (leader backup : Host lib) (request : String) (l b : Node) {signed : SignedPrePrepare}
      → SignaturesCheck lib
      → IsLeading lib leader request l
      → IsFollowing lib leader backup l b
      → sign_pre_prepare lib
          (record { number = issued_id lib leader l; request_digest = lib.sha256 request })
          leader.entity
        ≡ ok signed
      → handle_pre_prepare lib backup (record { signed_message = signed; request = request }) b
        ≡ some (
            place_pre_prepare lib backup
              (record { signed_message = signed; request = request })
              (record b { timeout_timer = running (get_timeout lib backup b) }))
  handle_pre_prepare-places leader backup request l b {signed} check lead f e =
      let full : FullPrePrepare = record { signed_message = signed; request = request } in
      let timed : Node = record b { timeout_timer = running (get_timeout lib backup b) } in
      let same : signed.message
          ≡ record { number = issued_id lib leader l; request_digest = lib.sha256 request } =
        message-sign_pre_prepare lib _ leader.entity e in
      let valid =
        pre_prepare_signature_valid-sign lib backup _ leader.entity leader.id check f.known e in
      let primary = get_primary-leader leader backup request l b lead f in
      handle_pre_prepare-checks full backup b leader.id f.idle primary.0 primary.1 f.timer valid
      ∙ ap some (
          check_pre_prepare-places full backup timed (ground (arith, same))
            (ground (arith, same, f.same_view)) (ground (arith, same, f.above))
            (ground (arith, same, f.below)))

  -- When the primary of a view gets a client's request that it has not seen, it broadcasts a pre-prepare
  -- for the next slot and keeps the request there; and a backup in the same view that handles that
  -- message keeps the same request with the same digest in the same slot. The backup knows the primary,
  -- no view change is in progress at either, the slot is empty and between the backup's water marks,
  -- and what is signed checks.
  pub handle_pre_prepare-adopts :
      (leader backup : Host lib) (request : String) (l b : Node) {signed : SignedPrePrepare}
      → SignaturesCheck lib
      → IsLeading lib leader request l
      → IsFollowing lib leader backup l b
      → sign_pre_prepare lib
          (record { number = issued_id lib leader l; request_digest = lib.sha256 request })
          leader.entity
        ≡ ok signed
      → ((handle_client_request lib leader request l).sent
          ≡ broadcast (pre_prepare (record { signed_message = signed; request = request }))
            ∷ l.sent)
        × ShowsRequest lib
            (issued_id lib leader l)
            request
            (lib.sha256 request)
            (handle_client_request lib leader request l)
        × (k : Node) × (handle_pre_prepare lib backup
              (record { signed_message = signed; request = request })
              b
            ≡ some k)
        × ShowsRequest lib (issued_id lib leader l) request (lib.sha256 request) k
  handle_pre_prepare-adopts leader backup request l b {signed} check lead f e =
      let full : FullPrePrepare = record { signed_message = signed; request = request } in
      let timed : Node = record b { timeout_timer = running (get_timeout lib backup b) } in
      let same : signed.message
          ≡ record { number = issued_id lib leader l; request_digest = lib.sha256 request } =
        message-sign_pre_prepare lib _ leader.entity e in
      let (sends, kept) = issue-sends lib leader request l lead e in
      (
        sends,
        kept,
        place_pre_prepare lib backup full timed,
        handle_pre_prepare-places leader backup request l b check lead f e,
        subst
            (λ (m : PrePrepare).
              ShowsRequest lib m.number request m.request_digest
                (place_pre_prepare lib backup full timed))
            same
            (place_pre_prepare-slot lib backup full timed
              (ap (λ (m : PrePrepare). (slot_at m.number b).request) same ∙ f.empty)),
      )
