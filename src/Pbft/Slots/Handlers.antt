-- ===== src/Pbft/Slots/Handlers.antt =====
-- The handlers of the normal case keep every slot valid.
use distribute_pki.Base.{
  false, true, arith, put, String, nat_eq, Holds, ◌≡◌, Result-cases, ap, inl, inr, String, ◌≡◌,
  true, nat_eq, string_eq,
}
use distribute_pki.Pbft.SlotId.{SlotId, slot_id_eq}
use distribute_pki.Pbft.Messages.{
  Digest, FullPrePrepare, Prepare, SignedPrepare, Commit, SignedCommit, Slot,
}
use distribute_pki.Pbft.Library.{Library, Host}
use distribute_pki.Pbft.Signing.{sign_pre_prepare, sign_prepare, sign_commit}
use distribute_pki.Pbft.Signatures.{message-sign_prepare, message-sign_commit}
use distribute_pki.Pbft.Node.{running, get_timeout, Node, empty_slot, is_prepared, is_committed}
use distribute_pki.Pbft.Normal.{
  try_checkpoint, fill_slot, place_pre_prepare, deliver, count_prepare, count_commit,
  generate_digest, store_pre_prepare, reset_timer, issue, issued_id, prepare_for, commit_for,
  handle_client_request, accept_pre_prepare, check_pre_prepare, handle_pre_prepare, send_commit,
  record_prepare, handle_prepare, record_commit, handle_commit,
}
use distribute_pki.Pbft.Slots.{
  IsSlot, IsLog, empty_slot-IsSlot, fill-IsSlot, mark_prepared-IsSlot, mark_committed-IsSlot,
  own_prepare-IsSlot, own_commit-IsSlot, put-IsLog, ensure_mapping-IsSlot, ensure_mapping-IsLog,
  add_prepare-IsSlot, add_commit-IsSlot,
}

log-try_checkpoint : (n : Node) → (try_checkpoint n).log ≡ n.log
unfolding try_checkpoint
log-try_checkpoint n = ground arith

log-deliver :
    (number : SlotId) (slot : Slot) (n : Node)
    → (deliver number slot n).log ≡ put number (record slot { committed = true }) n.log
unfolding deliver
log-deliver number slot n = rw log-try_checkpoint

module _ (lib : Library) (me : Host lib) where
  issue-IsLog :
      (request : String) (digest : Digest) (n : Node)
      → IsLog lib me n.log
      → IsLog lib me (issue lib me request digest n).log
  unfolding issue store_pre_prepare
  issue-IsLog request digest n h =
      elim (Result-cases (
        sign_pre_prepare lib (record { number = issued_id lib me n; request_digest = digest })
          me.entity)) [
            | inl (x, e) ↦ rw (e, issue) h
            | inr (signed, e) ↦
                rw (e, issue)
                  (put-IsLog lib me _ _ n.log
                    (fill-IsSlot lib me empty_slot request digest signed (empty_slot-IsSlot lib me))
                    h)
          ]

  accept_pre_prepare-IsLog :
      (full : FullPrePrepare) (slot : Slot) (n : Node)
      → IsSlot lib me slot
      → IsLog lib me n.log
      → IsLog lib me (accept_pre_prepare lib me full slot n).log
  unfolding accept_pre_prepare
  accept_pre_prepare-IsLog full slot n s h =
      let filled =
        fill-IsSlot lib me slot full.request full.signed_message.message.request_digest
          full.signed_message s in
      let stored = put-IsLog lib me full.signed_message.message.number _ n.log filled h in
      elim (Result-cases
        (sign_prepare lib (prepare_for lib me full.signed_message.message) me.entity)) [
          | inl (x, e) ↦ rw (e, accept_pre_prepare) stored
          | inr (signed, e) ↦
              rw (e, accept_pre_prepare)
                (put-IsLog lib me _ _ _
                  (own_prepare-IsSlot lib me _ signed
                    (ap (λ (m : Prepare). m.node) (message-sign_prepare lib _ me.entity e)) filled)
                  stored)
        ]

  send_commit-IsLog :
      (m : Prepare) (slot : Slot) (n : Node)
      → IsSlot lib me slot
      → is_prepared lib me slot ≡ true
      → IsLog lib me n.log
      → IsLog lib me (send_commit lib me m slot n).log
  unfolding send_commit
  send_commit-IsLog m slot n s p h =
      let marked = mark_prepared-IsSlot lib me slot s p in
      elim (Result-cases (sign_commit lib (commit_for lib me m) me.entity)) [
        | inl (x, e) ↦ rw (e, send_commit) (put-IsLog lib me _ _ n.log marked h)
        | inr (signed, e) ↦
            rw (e, send_commit)
              (put-IsLog lib me _ _ n.log
                (own_commit-IsSlot lib me _ signed
                  (ap (λ (m : Commit). m.node) (message-sign_commit lib _ me.entity e)) marked)
                h)
      ]

  count_prepare-IsLog :
      (m : Prepare) (slot : Slot) (n : Node)
      → IsSlot lib me slot
      → IsLog lib me n.log
      → IsLog lib me (count_prepare lib me m slot n).log
  unfolding count_prepare
  count_prepare-IsLog m slot n s h =
      ground (arith, send_commit-IsLog m slot n s, put-IsLog lib me m.number slot n.log s h)

  record_prepare-IsLog :
      (m : SignedPrepare) (n : Node)
      → IsLog lib me n.log
      → IsLog lib me (record_prepare lib me m n).log
  unfolding record_prepare
  record_prepare-IsLog m n h =
      count_prepare-IsLog m.message _ _
        (add_prepare-IsSlot lib me _ m (ensure_mapping-IsSlot lib me m.message.number n h))
        (ensure_mapping-IsLog lib me m.message.number n h)

  deliver-IsLog :
      (number : SlotId) (slot : Slot) (n : Node)
      → IsSlot lib me slot
      → is_committed lib me slot ≡ true
      → IsLog lib me n.log
      → IsLog lib me (deliver number slot n).log
  deliver-IsLog number slot n s c h =
      rw log-deliver (put-IsLog lib me number _ n.log (mark_committed-IsSlot lib me slot s c) h)

  count_commit-IsLog :
      (number : SlotId) (slot : Slot) (n : Node)
      → IsSlot lib me slot
      → IsLog lib me n.log
      → IsLog lib me (count_commit lib me number slot n).log
  unfolding count_commit
  count_commit-IsLog number slot n s h =
      ground (arith, deliver-IsLog number slot n s, put-IsLog lib me number slot n.log s h)

  record_commit-IsLog :
      (m : SignedCommit) (n : Node)
      → IsLog lib me n.log
      → IsLog lib me (record_commit lib me m n).log
  unfolding record_commit
  record_commit-IsLog m n h =
      count_commit-IsLog m.message.number _ _
        (add_commit-IsSlot lib me _ m (ensure_mapping-IsSlot lib me m.message.number n h))
        (ensure_mapping-IsLog lib me m.message.number n h)

  pub handle_client_request-IsLog :
      (request : String) (n : Node)
      → IsLog lib me n.log
      → IsLog lib me (handle_client_request lib me request n).log
  unfolding handle_client_request generate_digest
  handle_client_request-IsLog request n h = ground (
    arith,
    issue-IsLog request (lib.sha256 request)
        (record n { requests = put (lib.sha256 request) (record { committed = false }) n.requests })
        h,
  )

  fill_slot-IsLog :
      (full : FullPrePrepare) (slot : Slot) (n : Node)
      → IsSlot lib me slot
      → IsLog lib me n.log
      → IsLog lib me (fill_slot lib me full slot n).log
  unfolding fill_slot
  fill_slot-IsLog full slot n s h = ground (arith, accept_pre_prepare-IsLog full slot n s h)

  place_pre_prepare-IsLog :
      (full : FullPrePrepare) (n : Node)
      → IsLog lib me n.log
      → IsLog lib me (place_pre_prepare lib me full n).log
  unfolding place_pre_prepare
  place_pre_prepare-IsLog full n h =
      let number = full.signed_message.message.number in
      fill_slot-IsLog full _ _ (ensure_mapping-IsSlot lib me number n h)
        (ensure_mapping-IsLog lib me number n h)

  check_pre_prepare-IsLog :
      (full : FullPrePrepare) (n : Node)
      → IsLog lib me n.log
      → IsLog lib me (check_pre_prepare lib me full n).log
  unfolding check_pre_prepare generate_digest
  check_pre_prepare-IsLog full n h = ground (arith, place_pre_prepare-IsLog full n h)

  pub handle_pre_prepare-IsLog :
      (full : FullPrePrepare) (n : Node)
      → IsLog lib me n.log
      → Holds (λ k. IsLog lib me k.log) (handle_pre_prepare lib me full n)
  unfolding handle_pre_prepare reset_timer
  handle_pre_prepare-IsLog full n h =
      let timed : Node = record n { timeout_timer = running (get_timeout lib me n) } in
      ground (arith, check_pre_prepare-IsLog full timed h)

  pub handle_prepare-IsLog :
      (m : SignedPrepare) (n : Node)
      → IsLog lib me n.log
      → IsLog lib me (handle_prepare lib me m n).log
  unfolding handle_prepare
  handle_prepare-IsLog m n h = ground (arith, record_prepare-IsLog m n h)

  pub handle_commit-IsLog :
      (m : SignedCommit) (n : Node)
      → IsLog lib me n.log
      → IsLog lib me (handle_commit lib me m n).log
  unfolding handle_commit
  handle_commit-IsLog m n h = ground (arith, record_commit-IsLog m n h)
