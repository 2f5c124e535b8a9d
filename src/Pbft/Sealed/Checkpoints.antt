-- ===== src/Pbft/Sealed/Checkpoints.antt =====
-- Checkpoints, timers and the start of a view change unseal no slot.
use distribute_pki.Base.{
  ℕ, ◌+◌, ◌≡◌, refl, ◌∙◌, inl, inr, true, arith, if-cases, nat_eq, string_eq, Result-cases, Holds,
  Holds-any, and_then-Holds, Map,
}
use distribute_pki.Pbft.SlotId.{SlotId, slot_id_eq}
use distribute_pki.Pbft.Messages.{
  Bytes, CheckpointProof, SignedCheckpoint, SignedCheckpointProof, PreparedProof,
}
use distribute_pki.Pbft.Library.{Library, Host}
use distribute_pki.Pbft.Signing.{sign_checkpoint}
use distribute_pki.Pbft.Node.{Node, emit, stop_timers}
use distribute_pki.Pbft.Checkpoints.{
  checkpointed, handle_checkpoint_no_validation, handle_checkpoint, handle_checkpoint_proof,
  handle_recv_snapshot, checkpoint_for, with_vote, store_vote, rearm,
}
use distribute_pki.Pbft.ViewChanges.{
  generate_proofs_since_checkpoint, begin_view_change, announce_view_change, is_outdated,
  start_view_change,
}
use distribute_pki.Pbft.Heartbeat.{send_heartbeat, handle_heartbeat_timeout}
use distribute_pki.Pbft.Sealed.{is_sealed, Seals, same-Seals}
use distribute_pki.Pbft.Stability.{checkpointed-gets}
use distribute_pki.Pbft.SlotId.{before, before_or_equal}
use distribute_pki.Pbft.Heartbeat.Rule.{send_heartbeat-Holds}

module _ (lib : Library) (me : Host lib) (id : SlotId) (view : ℕ) where
  checkpointed-sealed :
      (cp : CheckpointProof) (n : Node)
      → is_sealed id n ≡ true
      → is_sealed id (checkpointed cp n) ≡ true
  unfolding before before_or_equal
  checkpointed-sealed cp n h =
      let (pending, log, last) = checkpointed-gets cp n id in ground (arith, log, last, h)

  view-checkpointed :
      (cp : CheckpointProof) (n : Node) → (checkpointed cp n).view_number ≡ n.view_number
  unfolding checkpointed
  view-checkpointed cp n = ground arith

  checkpointed-Seals :
      (cp : CheckpointProof) (n : Node) → Seals id view n → Seals id view (checkpointed cp n)
  checkpointed-Seals cp n h = record {
    in_view = view-checkpointed cp n ∙ h.in_view;
    sealed = checkpointed-sealed cp n h.sealed;
  }

  no_validation-Seals :
      (m : SignedCheckpoint) (n : Node)
      → Seals id view n
      → Seals id view (handle_checkpoint_no_validation lib me m n)
  unfolding handle_checkpoint_no_validation store_vote
  no_validation-Seals m n h =
      let stored : Seals id view (store_vote lib me m n) =
        same-Seals id view n (store_vote lib me m n) refl refl refl h in
      ground
        (arith, h, stored, checkpointed-Seals (with_vote lib me m n) (store_vote lib me m n) stored)

  pub handle_checkpoint-Seals :
      (m : SignedCheckpoint) (n : Node)
      → Seals id view n
      → Seals id view (handle_checkpoint lib me m n)
  unfolding handle_checkpoint
  handle_checkpoint-Seals m n h = ground (arith, h, no_validation-Seals m n h)

  pub handle_checkpoint_proof-Seals :
      (m : SignedCheckpointProof) (n : Node)
      → Seals id view n
      → Seals id view (handle_checkpoint_proof lib me m n)
  unfolding handle_checkpoint_proof rearm
  handle_checkpoint_proof-Seals m n h =
      let rearmed : Seals id view (rearm lib me n) =
        same-Seals id view n (rearm lib me n) refl refl refl h in
      ground (arith, rearmed, checkpointed-Seals m.message.proof (rearm lib me n) rearmed)

  pub handle_recv_snapshot-Seals :
      (number : SlotId) (state : Bytes) (n : Node)
      → Seals id view n
      → Seals id view (handle_recv_snapshot lib me number state n)
  unfolding handle_recv_snapshot
  handle_recv_snapshot-Seals number state n h =
      elim (Result-cases (sign_checkpoint lib (checkpoint_for lib me number state) me.entity)) [
        | inl (x, e) ↦ rw (e, handle_recv_snapshot) h
        | inr (signed, e) ↦
            let k : Node = handle_checkpoint_no_validation lib me signed n in
            rw (e, handle_recv_snapshot)
              (same-Seals id view k _ refl refl refl (no_validation-Seals signed n h))
      ]

  announce-Seals :
      (to : ℕ) (proofs : Map SlotId PreparedProof) (n : Node)
      → Seals id view n
      → Seals id view (announce_view_change lib me to proofs n)
  unfolding announce_view_change stop_timers
  announce-Seals to proofs n h = ground (arith, h)

  pub start_view_change-Seals :
      (to : ℕ) (n : Node) → Seals id view n → Holds (Seals id view) (start_view_change lib me to n)
  unfolding start_view_change begin_view_change
  start_view_change-Seals to n h =
      if-cases (Holds (Seals id view)) n.down _ _ (λ _. h)
        λ _.
          if-cases (Holds (Seals id view)) (is_outdated lib me to n) _ _ (λ _. h)
            λ _.
              and_then-Holds (λ _. Unit {0}) (Seals id view)
                (generate_proofs_since_checkpoint lib me (begin_view_change lib me to n)) _
                (Holds-any _)
                (λ proofs _.
                  announce-Seals to proofs (begin_view_change lib me to n)
                    (same-Seals id view n (begin_view_change lib me to n) refl refl refl h))

  send_heartbeat-Seals :
      (n : Node) → Seals id view n → Holds (Seals id view) (send_heartbeat lib me n)
  send_heartbeat-Seals =
      send_heartbeat-Holds lib me (Seals id view)
        (λ e n h. same-Seals id view n (emit e n) refl refl refl h)

  pub timeout-Seals :
      (n : Node) → Seals id view n → Holds (Seals id view) (handle_heartbeat_timeout lib me n)
  unfolding handle_heartbeat_timeout
  timeout-Seals n h =
      ground (arith, h, start_view_change-Seals (n.view_number + 1) n h, send_heartbeat-Seals n h)
