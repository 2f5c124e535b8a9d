-- ===== src/Pbft/Slots/Checkpoints.antt =====
-- The handlers of src/pbft/checkpoint.go keep the log valid.
use distribute_pki.Base.{
  Result-cases, inl, inr, List, [], ◌∷◌, arith, nat_eq, string_eq, Map, remove,
}
use distribute_pki.Pbft.SlotId.{SlotId, slot_id_eq}
use distribute_pki.Pbft.Messages.{
  CheckpointProof, SignedCheckpoint, SignedCheckpointProof, Slot, Bytes,
}
use distribute_pki.Pbft.Library.{Library, Host}
use distribute_pki.Pbft.Signing.{sign_checkpoint}
use distribute_pki.Pbft.Node.{Node}
use distribute_pki.Pbft.Checkpoints.{
  stable_slots, remove_all, checkpointed, handle_checkpoint_no_validation, handle_checkpoint,
  handle_checkpoint_proof, handle_recv_snapshot, checkpoint_for, with_vote, store_vote, rearm,
}
use distribute_pki.Pbft.Slots.{IsLog, remove-IsLog}

module _ (lib : Library) (me : Host lib) where
  abbrev pub HasLog : Node → Type 0
  HasLog n = IsLog lib me n.log

  remove_all-IsLog :
      (slots : List SlotId) (log : Map SlotId Slot)
      → IsLog lib me log
      → IsLog lib me (remove_all slots log)
  unfolding remove_all
  remove_all-IsLog [] log h = h
  remove_all-IsLog (slot ∷ slots) log h =
      remove_all-IsLog slots (remove slot log) (remove-IsLog lib me slot log h)

  checkpointed-IsLog : (cp : CheckpointProof) (n : Node) → HasLog n → HasLog (checkpointed cp n)
  unfolding checkpointed
  checkpointed-IsLog cp n h =
      ground (arith, remove_all-IsLog (stable_slots cp.number n.pending_checkpoints) n.log h)

  no_validation-IsLog :
      (m : SignedCheckpoint) (n : Node)
      → HasLog n
      → HasLog (handle_checkpoint_no_validation lib me m n)
  unfolding handle_checkpoint_no_validation store_vote
  no_validation-IsLog m n h =
      ground (arith, checkpointed-IsLog (with_vote lib me m n) (store_vote lib me m n) h)

  pub handle_checkpoint-IsLog :
      (m : SignedCheckpoint) (n : Node) → HasLog n → HasLog (handle_checkpoint lib me m n)
  unfolding handle_checkpoint
  handle_checkpoint-IsLog m n h = ground (arith, no_validation-IsLog m n h)

  pub handle_checkpoint_proof-IsLog :
      (m : SignedCheckpointProof) (n : Node)
      → HasLog n
      → HasLog (handle_checkpoint_proof lib me m n)
  unfolding handle_checkpoint_proof rearm
  handle_checkpoint_proof-IsLog m n h =
      ground (arith, checkpointed-IsLog m.message.proof (rearm lib me n) h)

  pub handle_recv_snapshot-IsLog :
      (number : SlotId) (state : Bytes) (n : Node)
      → HasLog n
      → HasLog (handle_recv_snapshot lib me number state n)
  unfolding handle_recv_snapshot
  handle_recv_snapshot-IsLog number state n h =
      elim (Result-cases (sign_checkpoint lib (checkpoint_for lib me number state) me.entity)) [
        | inl (x, e) ↦ rw (e, handle_recv_snapshot) h
        | inr (signed, e) ↦ rw (e, handle_recv_snapshot) (no_validation-IsLog signed n h)
      ]
