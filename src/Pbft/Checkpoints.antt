-- ===== src/Pbft/Checkpoints.antt =====
-- src/pbft/checkpoint.go: pending checkpoints collect signed votes, and one with enough of them
-- becomes the last stable checkpoint.
use distribute_pki.Base.{
  ℕ, ◌+◌, Bool, not, ◌||◌, none, some, List, [], ◌∷◌, ltb, leb, ◌==◌, if◌then◌else◌, nat_eq,
  string_eq, length, ok, err, Map, get, put, remove,
}
use distribute_pki.Pbft.SlotId.{SlotId, before, before_or_equal, slot_id_eq}
use distribute_pki.Pbft.Messages.{
  NodeId, Bytes, Checkpoint, SignedCheckpoint, CheckpointProof, SignedCheckpointProof,
}
use distribute_pki.Pbft.Library.{Library, Host}
use distribute_pki.Pbft.Signing.{
  sign_checkpoint, checkpoint_signature_valid, checkpoint_proof_signature_valid,
}
use distribute_pki.Pbft.Node.{
  Node, broadcast, snapshotted, checkpoint, Timer, unset, stopped, running, emit, two_f,
  get_timeout,
}

-- The keys of a map that come before a slot or are that slot, in the map's order.
unfoldable pub stable_slots {ℓ} : {V : Type ℓ} → SlotId → Map SlotId V → List SlotId
stable_slots number [] = []
stable_slots number ((slot, v) ∷ m) =
    let rest = stable_slots number m in if before_or_equal slot number then slot ∷ rest else rest

unfoldable pub remove_all {ℓ} : {V : Type ℓ} → List SlotId → Map SlotId V → Map SlotId V
remove_all [] m = m
remove_all (slot ∷ slots) m = remove_all slots (remove slot m)

-- `checkpointed`. The second loop deletes from the log the slots of the pending checkpoints that the
-- first one found, and not the slots of the log.
unfoldable pub checkpointed : CheckpointProof → Node → Node
checkpointed cp n =
    if before cp.number n.last_checkpoint.number
    then n
    else (let stable : List SlotId = stable_slots cp.number n.pending_checkpoints in
        let n' : Node = record n {
          last_checkpoint = cp;
          pending_checkpoints = remove_all stable n.pending_checkpoints;
          log = remove_all stable n.log;
        } in
        if ltb n'.sequence_number cp.number.seq_number
        then emit (snapshotted cp.snapshot) (record n' { sequence_number = cp.number.seq_number })
        else n')

-- The votes for a pending checkpoint: none, where the map lacks it.
unfoldable pub pending_proof : SlotId → Node → Map NodeId SignedCheckpoint
pending_proof number n = elim (get number n.pending_checkpoints) [
  | none ↦ []
  | some info ↦ info.proof
]

-- A timer's `Reset` behind a test for nil.
unfoldable pub reset_if_set : ℕ → Timer → Timer
reset_if_set d unset = unset
reset_if_set d stopped = running d
reset_if_set d (running _) = running d

module _ (lib : Library) (me : Host lib) where
  unfoldable pub is_stable : Checkpoint → Node → Bool
  is_stable cp n =
      before_or_equal cp.number n.last_checkpoint.number
      || leb (two_f lib me + 1) (length (pending_proof cp.number n))

  -- The pending checkpoint of a vote, made from the vote where there is none.
  unfoldable pub pending_for : Checkpoint → Node → CheckpointProof
  pending_for cp n = elim (get cp.number n.pending_checkpoints) [
    | none ↦ record { number = cp.number; snapshot = cp.snapshot; proof = [] }
    | some info ↦ info
  ]

  -- The pending checkpoint with the vote.
  unfoldable pub with_vote : SignedCheckpoint → Node → CheckpointProof
  with_vote message n =
      let info : CheckpointProof = pending_for message.message n in
      record info { proof = put message.message.node message info.proof }

  unfoldable pub store_vote : SignedCheckpoint → Node → Node
  store_vote message n = record n {
    pending_checkpoints = put message.message.number (with_vote message n) n.pending_checkpoints;
  }

  unfoldable pub handle_checkpoint_no_validation : SignedCheckpoint → Node → Node
  handle_checkpoint_no_validation message n =
      if is_stable message.message n
      then n
      else if is_stable message.message (store_vote message n)
      then checkpointed (with_vote message n) (store_vote message n)
      else store_vote message n

  unfoldable pub handle_checkpoint : SignedCheckpoint → Node → Node
  handle_checkpoint message n =
      elim (checkpoint_signature_valid lib me.peer_entities me.peer_entity_map message) [
        | err e ↦ n
        | ok sender ↦
            if not (sender == message.message.node)
            then n
            else handle_checkpoint_no_validation message n
      ]

  -- if n.timeoutTimer != nil { n.timeoutTimer.Reset(n.getTimeout()) }
  unfoldable pub rearm : Node → Node
  rearm n = record n { timeout_timer = reset_if_set (get_timeout lib me n) n.timeout_timer }

  unfoldable pub handle_checkpoint_proof : SignedCheckpointProof → Node → Node
  handle_checkpoint_proof message n =
      elim (checkpoint_proof_signature_valid lib me.peer_entities me.peer_entity_map message) [
        | err e ↦ rearm n
        | ok sender ↦
            if not (sender == message.message.node)
            then rearm n
            else checkpointed message.message.proof (rearm n)
      ]

  abbrev pub checkpoint_for : SlotId → Bytes → Checkpoint
  checkpoint_for number state = record { number = number; snapshot = state; node = me.id }

  -- `handleRecvSnapshot`: the client's answer to a request for a snapshot.
  unfoldable pub handle_recv_snapshot : SlotId → Bytes → Node → Node
  handle_recv_snapshot number state n =
      elim (sign_checkpoint lib (checkpoint_for number state) me.entity) [
        | err e ↦ n
        | ok signed ↦
            emit (broadcast (checkpoint signed)) (handle_checkpoint_no_validation signed n)
      ]
