-- ===== src/Pbft/Contents/Checkpoints.antt =====
-- Checkpoints, timers and the start of a view change fill no slot.
use distribute_pki.Base.{
  ℕ, ◌+◌, inl, inr, none, List, [], ◌∷◌, arith, if-cases, nat_eq, string_eq, Result-cases, Holds,
  Holds-any, and_then-Holds, Map, remove,
}
use distribute_pki.Pbft.SlotId.{SlotId, slot_id_eq}
use distribute_pki.Pbft.Messages.{
  Bytes, CheckpointProof, SignedCheckpoint, SignedCheckpointProof, PreparedProof, Slot,
}
use distribute_pki.Pbft.Library.{Library, Host}
use distribute_pki.Pbft.Signing.{sign_checkpoint}
use distribute_pki.Pbft.Node.{Node, start_timers, stop_timers}
use distribute_pki.Pbft.Checkpoints.{
  stable_slots, remove_all, checkpointed, handle_checkpoint_no_validation, handle_checkpoint,
  handle_checkpoint_proof, handle_recv_snapshot, checkpoint_for, with_vote, store_vote, rearm,
}
use distribute_pki.Pbft.ViewChanges.{
  generate_proofs_since_checkpoint, begin_view_change, announce_view_change, is_outdated,
  start_view_change, enter_new_view,
}
use distribute_pki.Pbft.Heartbeat.{send_heartbeat, handle_heartbeat_timeout}
use distribute_pki.Pbft.Contents.{Content, Everywhere, remove-Everywhere}
use distribute_pki.Pbft.Heartbeat.Rule.{send_heartbeat-Holds}

module _ (lib : Library) (me : Host lib) (Q : Content) (nothing : (id : SlotId) → Q id none 0) where
  abbrev Filled : Node → Type 0
  Filled n = Everywhere Q n.log

  remove_all-Everywhere :
      (slots : List SlotId) (log : Map SlotId Slot)
      → Everywhere Q log
      → Everywhere Q (remove_all slots log)
  unfolding remove_all
  remove_all-Everywhere [] log h = h
  remove_all-Everywhere (slot ∷ slots) log h =
      remove_all-Everywhere slots (remove slot log) (remove-Everywhere Q nothing slot log h)

  checkpointed-Everywhere :
      (cp : CheckpointProof) (n : Node) → Filled n → Filled (checkpointed cp n)
  unfolding checkpointed
  checkpointed-Everywhere cp n h =
      ground
        (arith, h, remove_all-Everywhere (stable_slots cp.number n.pending_checkpoints) n.log h)

  no_validation-Everywhere :
      (m : SignedCheckpoint) (n : Node)
      → Filled n
      → Filled (handle_checkpoint_no_validation lib me m n)
  unfolding handle_checkpoint_no_validation store_vote
  no_validation-Everywhere m n h =
      ground (arith, h, checkpointed-Everywhere (with_vote lib me m n) (store_vote lib me m n) h)

  pub handle_checkpoint-Everywhere :
      (m : SignedCheckpoint) (n : Node) → Filled n → Filled (handle_checkpoint lib me m n)
  unfolding handle_checkpoint
  handle_checkpoint-Everywhere m n h = ground (arith, h, no_validation-Everywhere m n h)

  pub handle_checkpoint_proof-Everywhere :
      (m : SignedCheckpointProof) (n : Node)
      → Filled n
      → Filled (handle_checkpoint_proof lib me m n)
  unfolding handle_checkpoint_proof rearm
  handle_checkpoint_proof-Everywhere m n h =
      ground (arith, h, checkpointed-Everywhere m.message.proof (rearm lib me n) h)

  pub handle_recv_snapshot-Everywhere :
      (number : SlotId) (state : Bytes) (n : Node)
      → Filled n
      → Filled (handle_recv_snapshot lib me number state n)
  unfolding handle_recv_snapshot
  handle_recv_snapshot-Everywhere number state n h =
      elim (Result-cases (sign_checkpoint lib (checkpoint_for lib me number state) me.entity)) [
        | inl (x, e) ↦ rw (e, handle_recv_snapshot) h
        | inr (signed, e) ↦ rw (e, handle_recv_snapshot) (no_validation-Everywhere signed n h)
      ]

  announce-Everywhere :
      (view : ℕ) (proofs : Map SlotId PreparedProof) (n : Node)
      → Filled n
      → Filled (announce_view_change lib me view proofs n)
  unfolding announce_view_change stop_timers
  announce-Everywhere view proofs n h = ground (arith, h)

  pub start_view_change-Everywhere :
      (view : ℕ) (n : Node) → Filled n → Holds Filled (start_view_change lib me view n)
  unfolding start_view_change begin_view_change
  start_view_change-Everywhere view n h =
      if-cases (Holds Filled) n.down _ _ (λ _. h)
        λ _.
          if-cases (Holds Filled) (is_outdated lib me view n) _ _ (λ _. h)
            λ _.
              and_then-Holds (λ _. Unit {0}) Filled
                (generate_proofs_since_checkpoint lib me (begin_view_change lib me view n)) _
                (Holds-any _)
                (λ proofs _. announce-Everywhere view proofs (begin_view_change lib me view n) h)

  pub enter_new_view-Everywhere :
      (view : ℕ) (n : Node) → Filled n → Filled (enter_new_view lib me view n)
  unfolding enter_new_view start_timers
  enter_new_view-Everywhere view n h = ground (arith, h)

  pub send_heartbeat-Everywhere : (n : Node) → Filled n → Holds Filled (send_heartbeat lib me n)
  send_heartbeat-Everywhere = send_heartbeat-Holds lib me Filled (λ e n h. h)

  pub timeout-Everywhere : (n : Node) → Filled n → Holds Filled (handle_heartbeat_timeout lib me n)
  unfolding handle_heartbeat_timeout
  timeout-Everywhere n h = ground (
    arith,
    h,
    start_view_change-Everywhere (n.view_number + 1) n h,
    send_heartbeat-Everywhere n h,
  )
