-- ===== src/Pbft/Contents/Handlers.antt =====
-- Client requests and pre-prepares: what holds of what they put into a slot holds of every slot.
use distribute_pki.Base.{
  String, ◌≡◌, inl, inr, true, false, some, arith, ◌==◌, Bool-cases, nat_eq, string_eq,
  Result-cases, ok, Holds, put,
}
use distribute_pki.Pbft.SlotId.{SlotId, slot_id_eq}
use distribute_pki.Pbft.Messages.{
  Digest, NodeId, SignedPrePrepare, FullPrePrepare, PrePrepare, Slot,
}
use distribute_pki.Pbft.Library.{Library, Host}
use distribute_pki.Pbft.Signing.{sign_pre_prepare, sign_prepare, pre_prepare_signature_valid}
use distribute_pki.Pbft.Node.{Node, running, get_timeout, is_primary, ensure_mapping}
use distribute_pki.Pbft.Normal.{
  generate_digest, store_pre_prepare, reset_timer, issue, issued_id, handle_client_request,
  in_window, prepare_for, accept_pre_prepare, fill_slot, place_pre_prepare, check_pre_prepare,
  wrong_primary, handle_pre_prepare,
}
use distribute_pki.Pbft.Contents.{Content, Everywhere, put-Everywhere, ensure_mapping-Everywhere}

module _ (lib : Library) (me : Host lib) (Q : Content) where
  abbrev Filled : Node → Type 0
  Filled n = Everywhere Q n.log

  -- What a pre-prepare puts into its slot.
  abbrev Fits : FullPrePrepare → Type 0
  Fits full =
      Q full.signed_message.message.number (some full.request)
        full.signed_message.message.request_digest

  pub store_pre_prepare-Everywhere :
      (id : SlotId) (request : String) (digest : Digest) (s : SignedPrePrepare) (n : Node)
      → Q id (some request) digest
      → Filled n
      → Filled (store_pre_prepare id request digest s n)
  unfolding store_pre_prepare
  store_pre_prepare-Everywhere id request digest s n b h = put-Everywhere Q id _ n.log b h

  issue-Everywhere :
      (request : String) (digest : Digest) (n : Node)
      → ((s : SignedPrePrepare)
          → sign_pre_prepare lib
              (record { number = issued_id lib me n; request_digest = digest })
              me.entity
            ≡ ok s
          → Q (issued_id lib me n) (some request) digest)
      → Filled n
      → Filled (issue lib me request digest n)
  unfolding issue
  issue-Everywhere request digest n b h =
      elim (Result-cases (
        sign_pre_prepare lib (record { number = issued_id lib me n; request_digest = digest })
          me.entity)) [
            | inl (x, e) ↦ rw (e, issue) h
            | inr (signed, e) ↦
                rw (e, issue)
                  (store_pre_prepare-Everywhere (issued_id lib me n) request digest signed _
                    (b signed e) h)
          ]

  -- The primary keeps a request in the slot that it issues next.
  pub handle_client_request-Everywhere :
      (request : String) (n : Node)
      → (is_primary lib me n ≡ true
          → (s : SignedPrePrepare)
          → sign_pre_prepare lib
              (record { number = issued_id lib me n; request_digest = lib.sha256 request })
              me.entity
            ≡ ok s
          → Q (issued_id lib me n) (some request) (lib.sha256 request))
      → Filled n
      → Filled (handle_client_request lib me request n)
  unfolding handle_client_request generate_digest is_primary
  handle_client_request-Everywhere request n b h = elim (Bool-cases (is_primary lib me n)) [
    | inl p ↦ ground (
      arith,
      h,
      issue-Everywhere request (lib.sha256 request)
          (record n {
            requests = put (lib.sha256 request) (record { committed = false }) n.requests;
          })
          (b p) h,
    )
    | inr p ↦ ground (arith, h)
  ]

  accept_pre_prepare-Everywhere :
      (full : FullPrePrepare) (slot : Slot) (n : Node)
      → Fits full
      → Filled n
      → Filled (accept_pre_prepare lib me full slot n)
  unfolding accept_pre_prepare
  accept_pre_prepare-Everywhere full slot n b h =
      let number : SlotId = full.signed_message.message.number in
      elim (Result-cases
        (sign_prepare lib (prepare_for lib me full.signed_message.message) me.entity)) [
          | inl (x, e) ↦ rw (e, accept_pre_prepare) (put-Everywhere Q number _ n.log b h)
          | inr (signed, e) ↦
              rw (e, accept_pre_prepare)
                (put-Everywhere Q number _ _ b (put-Everywhere Q number _ n.log b h))
        ]

  place_pre_prepare-Everywhere :
      (full : FullPrePrepare) (n : Node)
      → Fits full
      → Filled n
      → Filled (place_pre_prepare lib me full n)
  unfolding place_pre_prepare fill_slot
  place_pre_prepare-Everywhere full n b h =
      let number : SlotId = full.signed_message.message.number in
      let (slot, n') = ensure_mapping number n in
      let mapped = (ensure_mapping-Everywhere Q number n h).0 in
      ground (arith, mapped, accept_pre_prepare-Everywhere full slot n' b mapped)

  check_pre_prepare-Everywhere :
      (full : FullPrePrepare) (n : Node)
      → (full.signed_message.message.number.view_number ≡ n.view_number
          → full.signed_message.message.request_digest ≡ lib.sha256 full.request
          → Fits full)
      → Filled n
      → Filled (check_pre_prepare lib me full n)
  unfolding check_pre_prepare generate_digest in_window
  check_pre_prepare-Everywhere full n b h =
      let m : PrePrepare = full.signed_message.message in
      elim (Bool-cases (m.number.view_number == n.view_number)) [
        | inl e ↦ elim (Bool-cases (m.request_digest == lib.sha256 full.request)) [
          | inl f ↦
              ground
                (arith, h, place_pre_prepare-Everywhere full n (b (ground arith) (ground arith)) h)
          | inr f ↦ ground (arith, h)
        ]
        | inr e ↦ ground (arith, h)
      ]

  -- A backup keeps the request of a pre-prepare of its view that the primary signed and whose digest is
  -- that of the request.
  pub handle_pre_prepare-Everywhere :
      (full : FullPrePrepare) (n : Node)
      → ((sender : NodeId)
          → is_primary lib me n ≡ false
          → pre_prepare_signature_valid lib me.peer_entities me.peer_entity_map full.signed_message
            ≡ ok sender
          → wrong_primary lib me full sender n ≡ false
          → full.signed_message.message.number.view_number ≡ n.view_number
          → full.signed_message.message.request_digest ≡ lib.sha256 full.request
          → Fits full)
      → Filled n
      → Holds Filled (handle_pre_prepare lib me full n)
  unfolding handle_pre_prepare reset_timer
  handle_pre_prepare-Everywhere full n b h =
      let timed : Node = record n { timeout_timer = running (get_timeout lib me n) } in
      elim (Bool-cases (is_primary lib me n)) [
        | inl p ↦ ground (arith, h)
        | inr p ↦
            elim (Result-cases (
              pre_prepare_signature_valid lib me.peer_entities me.peer_entity_map
                full.signed_message)) [
                  | inl (x, v) ↦ ground (arith, h)
                  | inr (sender, v) ↦ elim (Bool-cases (wrong_primary lib me full sender n)) [
                    | inl w ↦ ground (arith, h)
                    | inr w ↦
                        ground
                          (arith, h, check_pre_prepare-Everywhere full timed (b sender p v w) h)
                  ]
                ]
      ]
