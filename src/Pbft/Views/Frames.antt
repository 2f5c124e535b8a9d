-- ===== src/Pbft/Views/Frames.antt =====
-- The handlers that keep the view, the view change and the timers.
use distribute_pki.Base.{String, inl, inr, arith, nat_eq, string_eq, Result-cases, Holds}
use distribute_pki.Pbft.SlotId.{SlotId, slot_id_eq}
use distribute_pki.Pbft.Messages.{
  FullPrePrepare, SignedPrepare, SignedCommit, CheckpointProof, SignedCheckpoint,
  SignedCheckpointProof, Bytes, Slot, Prepare,
}
use distribute_pki.Pbft.Library.{Library, Host}
use distribute_pki.Pbft.Node.{
  Node, Effect, ensure_mapping, emit, broadcast, checkpoint, running, get_timeout,
}
use distribute_pki.Pbft.Normal.{
  try_checkpoint, reset_timer, deliver, store_pre_prepare, issue, handle_client_request,
  accept_pre_prepare, fill_slot, place_pre_prepare, check_pre_prepare, handle_pre_prepare,
  send_commit, count_prepare, record_prepare, handle_prepare, count_commit, record_commit,
  handle_commit,
}
use distribute_pki.Pbft.Checkpoints.{
  checkpointed, with_vote, store_vote, handle_checkpoint_no_validation, handle_checkpoint,
  reset_if_set, rearm, handle_checkpoint_proof, handle_recv_snapshot, checkpoint_for,
}
use distribute_pki.Pbft.Heartbeat.{send_heartbeat}
use distribute_pki.Pbft.Heartbeat.Rule.{send_heartbeat-Holds}
use distribute_pki.Pbft.Signing.{sign_checkpoint}
use distribute_pki.Pbft.Views.{Keeps, Keeps-refl, Keeps-trans}

Keeps-ensure_mapping : (number : SlotId) (n : Node) → Keeps n (ensure_mapping number n).1
unfolding ensure_mapping
Keeps-ensure_mapping number n = ground arith

Keeps-deliver : (number : SlotId) (slot : Slot) (n : Node) → Keeps n (deliver number slot n)
unfolding deliver try_checkpoint
Keeps-deliver number slot n = ground arith

Keeps-checkpointed : (cp : CheckpointProof) (n : Node) → Keeps n (checkpointed cp n)
unfolding checkpointed
Keeps-checkpointed cp n = ground arith

Keeps-emit : (e : Effect) (n : Node) → Keeps n (emit e n)
Keeps-emit e n = ground arith

module _ (lib : Library) (me : Host lib) where
  pub Keeps-handle_client_request :
      (request : String) (n : Node) → Keeps n (handle_client_request lib me request n)
  unfolding handle_client_request issue store_pre_prepare
  Keeps-handle_client_request request n = ground arith

  Keeps-fill_slot :
      (full : FullPrePrepare) (slot : Slot) (n : Node) → Keeps n (fill_slot lib me full slot n)
  unfolding fill_slot accept_pre_prepare
  Keeps-fill_slot full slot n = ground arith

  Keeps-place : (full : FullPrePrepare) (n : Node) → Keeps n (place_pre_prepare lib me full n)
  unfolding place_pre_prepare
  Keeps-place full n =
      Keeps-trans (Keeps-ensure_mapping full.signed_message.message.number n)
        (Keeps-fill_slot full _ _)

  Keeps-check : (full : FullPrePrepare) (n : Node) → Keeps n (check_pre_prepare lib me full n)
  unfolding check_pre_prepare
  Keeps-check full n = ground (arith, Keeps-place full n)

  pub Keeps-handle_pre_prepare :
      (full : FullPrePrepare) (n : Node) → Holds (Keeps n) (handle_pre_prepare lib me full n)
  unfolding handle_pre_prepare reset_timer
  Keeps-handle_pre_prepare full n =
      let timed : Node = record n { timeout_timer = running (get_timeout lib me n) } in
      ground (arith, Keeps-check full timed)

  Keeps-count_prepare :
      (m : Prepare) (slot : Slot) (n : Node) → Keeps n (count_prepare lib me m slot n)
  unfolding count_prepare send_commit
  Keeps-count_prepare m slot n = ground arith

  Keeps-record_prepare : (m : SignedPrepare) (n : Node) → Keeps n (record_prepare lib me m n)
  unfolding record_prepare
  Keeps-record_prepare m n =
      Keeps-trans (Keeps-ensure_mapping m.message.number n) (Keeps-count_prepare m.message _ _)

  pub Keeps-handle_prepare : (m : SignedPrepare) (n : Node) → Keeps n (handle_prepare lib me m n)
  unfolding handle_prepare
  Keeps-handle_prepare m n = ground (arith, Keeps-record_prepare m n)

  Keeps-count_commit :
      (number : SlotId) (slot : Slot) (n : Node) → Keeps n (count_commit lib me number slot n)
  unfolding count_commit
  Keeps-count_commit number slot n = ground (arith, Keeps-deliver number slot n)

  Keeps-record_commit : (m : SignedCommit) (n : Node) → Keeps n (record_commit lib me m n)
  unfolding record_commit
  Keeps-record_commit m n =
      Keeps-trans (Keeps-ensure_mapping m.message.number n)
        (Keeps-count_commit m.message.number _ _)

  pub Keeps-handle_commit : (m : SignedCommit) (n : Node) → Keeps n (handle_commit lib me m n)
  unfolding handle_commit
  Keeps-handle_commit m n = ground (arith, Keeps-record_commit m n)

  Keeps-no_validation :
      (m : SignedCheckpoint) (n : Node) → Keeps n (handle_checkpoint_no_validation lib me m n)
  unfolding handle_checkpoint_no_validation store_vote
  Keeps-no_validation m n =
      ground (arith, Keeps-checkpointed (with_vote lib me m n) (store_vote lib me m n))

  pub Keeps-handle_checkpoint :
      (m : SignedCheckpoint) (n : Node) → Keeps n (handle_checkpoint lib me m n)
  unfolding handle_checkpoint
  Keeps-handle_checkpoint m n = ground (arith, Keeps-no_validation m n)

  Keeps-rearm : (n : Node) → Keeps n (rearm lib me n)
  unfolding rearm reset_if_set
  Keeps-rearm n = ground arith

  pub Keeps-handle_checkpoint_proof :
      (m : SignedCheckpointProof) (n : Node) → Keeps n (handle_checkpoint_proof lib me m n)
  unfolding handle_checkpoint_proof
  Keeps-handle_checkpoint_proof m n = ground (
    arith,
    Keeps-rearm n,
    Keeps-trans (Keeps-rearm n) (Keeps-checkpointed m.message.proof (rearm lib me n)),
  )

  pub Keeps-handle_recv_snapshot :
      (number : SlotId) (state : Bytes) (n : Node)
      → Keeps n (handle_recv_snapshot lib me number state n)
  unfolding handle_recv_snapshot
  Keeps-handle_recv_snapshot number state n =
      elim (Result-cases (sign_checkpoint lib (checkpoint_for lib me number state) me.entity)) [
        | inl (x, e) ↦ rw (e, handle_recv_snapshot) (Keeps-refl n)
        | inr (signed, e) ↦
            rw (e, handle_recv_snapshot)
              (Keeps-trans (Keeps-no_validation signed n)
                (Keeps-emit (broadcast (checkpoint signed)) _))
      ]

  pub Keeps-send_heartbeat : (n k : Node) → Keeps n k → Holds (Keeps n) (send_heartbeat lib me k)
  Keeps-send_heartbeat n =
      send_heartbeat-Holds lib me (Keeps n) (λ e k p. Keeps-trans p (Keeps-emit e k))
