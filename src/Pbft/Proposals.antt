-- ===== src/Pbft/Proposals.antt =====
-- What a backup checks before it takes a proposal, and that it keeps the one it took.
use distribute_pki.Base.{
  ap, ◌∙◌, Bool-cases, get-put_ne, Result-cases, ◌+◌, ◌≤◌, ◌<◌, ◌≡◌, ◌≢◌, ◌⊎◌, inl, inr, true,
  false, some, arith, is_some, nat_eq, string_eq, ok, get, get-put,
}
use distribute_pki.Pbft.SlotId.{SlotId, same_slot, same_slot_iff, slot_id_eq}
use distribute_pki.Pbft.Messages.{FullPrePrepare, Slot}
use distribute_pki.Pbft.Library.{Library, Host}
use distribute_pki.Pbft.Signing.{sign_prepare, pre_prepare_signature_valid}
use distribute_pki.Pbft.Node.{
  Node, running, empty_slot, ensure_mapping, is_primary, get_primary, get_timeout,
}
use distribute_pki.Pbft.Normal.{
  prepare_for, generate_digest, reset_timer, in_window, accept_pre_prepare, fill_slot,
  place_pre_prepare, check_pre_prepare, wrong_primary, handle_pre_prepare,
}
use distribute_pki.Pbft.NewViews.{has_request}

module _ (lib : Library) (me : Host lib) where
  -- What a backup has checked of a proposal.
  pub record IsChecked (full : FullPrePrepare) (n : Node) : Type 0 where
    pub idle : n.view_change.in_progress ≡ false
    pub a_backup : is_primary lib me n ≡ false
    pub view : full.signed_message.message.number.view_number ≡ n.view_number
    pub above : n.last_checkpoint.number.seq_number < full.signed_message.message.number.seq_number
    pub below :
        full.signed_message.message.number.seq_number ≤ n.last_checkpoint.number.seq_number + 300
    pub digest : full.signed_message.message.request_digest ≡ lib.sha256 full.request
    pub signed :
        pre_prepare_signature_valid lib me.peer_entities me.peer_entity_map full.signed_message
        ≡ ok (get_primary lib me n).0

  -- If a pre-prepare message fills a slot that held no request, then no view change was in progress,
  -- the node is not the primary, the message is of the current view and between the water marks, its
  -- digest is that of the request, and the primary of the view signed it.
  pub filled-IsChecked :
      (full : FullPrePrepare) (n k : Node)
      → handle_pre_prepare lib me full n ≡ some k
      → has_request full.signed_message.message.number n ≡ false
      → has_request full.signed_message.message.number k ≡ true
      → IsChecked full n
  unfolding handle_pre_prepare check_pre_prepare reset_timer in_window wrong_primary generate_digest
      has_request
  filled-IsChecked full n k e before after = ground arith

  ensure_mapping-slot :
      (number : SlotId) (n : Node) {slot : Slot}
      → get number n.log ≡ some slot
      → (ensure_mapping number n).0 ≡ slot
  unfolding ensure_mapping
  ensure_mapping-slot number n h = ground arith

  pub ensure_mapping-get :
      (number j : SlotId) (n : Node) {slot : Slot}
      → get j n.log ≡ some slot
      → get j (ensure_mapping number n).1.log ≡ some slot
  unfolding ensure_mapping
  ensure_mapping-get number j n h =
      ground (arith, get-put number j empty_slot n.log, same_slot_iff number j)

  accept_pre_prepare-get :
      (full : FullPrePrepare) (slot : Slot) (n : Node) (j : SlotId)
      → full.signed_message.message.number ≢ j
      → get j (accept_pre_prepare lib me full slot n).log ≡ get j n.log
  unfolding accept_pre_prepare
  accept_pre_prepare-get full slot n j h =
      let number : SlotId = full.signed_message.message.number in
      elim (Result-cases
        (sign_prepare lib (prepare_for lib me full.signed_message.message) me.entity)) [
          | inl (x, e) ↦ rw (e, accept_pre_prepare) (get-put_ne number j _ n.log h)
          | inr (signed, e) ↦
              rw (e, accept_pre_prepare) (get-put_ne number j _ _ h ∙ get-put_ne number j _ n.log h)
        ]

  pub fill_slot-get :
      (full : FullPrePrepare) (slot : Slot) (n : Node) (j : SlotId)
      → (is_some slot.request ≡ true) ⊎ (full.signed_message.message.number ≢ j)
      → get j (fill_slot lib me full slot n).log ≡ get j n.log
  unfolding fill_slot
  fill_slot-get full slot n j (inl h) = ground arith
  fill_slot-get full slot n j (inr h) = ground (arith, accept_pre_prepare-get full slot n j h)

  place_pre_prepare-get :
      (full : FullPrePrepare) (n : Node) (j : SlotId) {slot : Slot}
      → get j n.log ≡ some slot
      → is_some slot.request ≡ true
      → get j (place_pre_prepare lib me full n).log ≡ some slot
  unfolding place_pre_prepare
  place_pre_prepare-get full n j {slot} g h =
      let number : SlotId = full.signed_message.message.number in
      let kept = ensure_mapping-get number j n g in
      elim (Bool-cases (same_slot number j)) [
        | inl e ↦
            fill_slot-get full _ _ j (
              inl (
                ap (λ (s : Slot). is_some s.request)
                  (ensure_mapping-slot number n
                    (ap (λ k. get k n.log) ((same_slot_iff number j).0 e) ∙ g))
                ∙ h))
            ∙ kept
        | inr e ↦
            fill_slot-get full _ _ j (inr (λ p. ground (arith, (same_slot_iff number j).1 p)))
            ∙ kept
      ]

  -- A slot that holds a request stays as it is, whatever pre-prepare comes for it or for another slot.
  pub handle_pre_prepare-get :
      (full : FullPrePrepare) (n k : Node) (j : SlotId) (slot : Slot)
      → handle_pre_prepare lib me full n ≡ some k
      → get j n.log ≡ some slot
      → is_some slot.request ≡ true
      → get j k.log ≡ some slot
  unfolding handle_pre_prepare check_pre_prepare reset_timer generate_digest
  handle_pre_prepare-get full n k j slot e g h = ground (
    arith,
    place_pre_prepare-get full (record n { timeout_timer = running (get_timeout lib me n) }) j g h,
  )
