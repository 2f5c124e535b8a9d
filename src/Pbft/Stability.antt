-- ===== src/Pbft/Stability.antt =====
-- Stable checkpoints: what makes one, and what it clears.
use distribute_pki.Base.{
  ltb, ◌+◌, ◌≤◌, ◌≡◌, refl, ◌⊎◌, Bool, false, not, ◌&&◌, ◌||◌, none, List, [], ◌∷◌, arith,
  if◌then◌else◌, is_some, nat_eq, string_eq, length, Map, get, remove, get-put_self, get-remove,
}
use distribute_pki.Pbft.SlotId.{
  SlotId, before, before_or_equal, same_slot, same_slot_iff, slot_id_eq,
}
use distribute_pki.Pbft.Messages.{SignedCheckpoint, CheckpointProof}
use distribute_pki.Pbft.Library.{Library, Host}
use distribute_pki.Pbft.Node.{Node, two_f}
use distribute_pki.Pbft.Checkpoints.{
  stable_slots, remove_all, checkpointed, pending_proof, is_stable, with_vote, store_vote,
  handle_checkpoint_no_validation,
}

contains : SlotId → List SlotId → Bool
contains j [] = false
contains j (slot ∷ slots) = same_slot slot j || contains j slots

get-remove_all {ℓ} :
    {V : Type ℓ} (slots : List SlotId) (m : Map SlotId V) (j : SlotId)
    → get j (remove_all slots m) ≡ (if contains j slots then none else get j m)
unfolding contains remove_all
get-remove_all [] m j = refl
get-remove_all (slot ∷ slots) m j =
    ground (arith, get-remove_all slots (remove slot m) j, get-remove slot j m)

contains-stable_slots {ℓ} :
    {V : Type ℓ} (number : SlotId) (m : Map SlotId V) (j : SlotId)
    → contains j (stable_slots number m) ≡ (is_some (get j m) && before_or_equal j number)
unfolding contains stable_slots get
contains-stable_slots number [] j = refl
contains-stable_slots number ((slot, v) ∷ m) j =
    ground (arith, contains-stable_slots number m j, same_slot_iff slot j)

-- Is a checkpoint taken, or is it older than the last one?
abbrev pub is_taken : CheckpointProof → Node → Bool
is_taken cp n = not (before cp.number n.last_checkpoint.number)

-- A checkpoint that is not older than the last one takes its place, and the pending checkpoints up to
-- it go. Of the log go only the slots at which such a pending checkpoint stood: every other slot stays,
-- also one that the checkpoint covers.
pub checkpointed-gets :
    (cp : CheckpointProof) (n : Node) (j : SlotId)
    → (get j (checkpointed cp n).pending_checkpoints ≡ (
        if is_taken cp n && before_or_equal j cp.number then none else get j n.pending_checkpoints))
      × (get j (checkpointed cp n).log ≡ (
          if is_taken cp n && (is_some (get j n.pending_checkpoints) && before_or_equal j cp.number)
          then none
          else get j n.log))
      × ((checkpointed cp n).last_checkpoint ≡ (if is_taken cp n then cp else n.last_checkpoint))
unfolding checkpointed
checkpointed-gets cp n j =
    let slots = stable_slots cp.number n.pending_checkpoints in
    let member = contains-stable_slots cp.number n.pending_checkpoints j in
    (
      ground (arith, get-remove_all slots n.pending_checkpoints j, member),
      ground (arith, get-remove_all slots n.log j, member),
      ground arith,
    )

-- The last checkpoint never moves back in the order of slots, and the node's sequence number is at
-- least that of a checkpoint it takes.
pub checkpointed_forward :
    (cp : CheckpointProof) (n : Node)
    → (before (checkpointed cp n).last_checkpoint.number n.last_checkpoint.number ≡ false)
      × ((is_taken cp n && ltb (checkpointed cp n).sequence_number cp.number.seq_number) ≡ false)
unfolding checkpointed before
checkpointed_forward cp n = (ground arith, ground arith)

module _ (lib : Library) (me : Host lib) where
  pending_proof-store_vote :
      (m : SignedCheckpoint) (n : Node)
      → pending_proof m.message.number (store_vote lib me m n) ≡ (with_vote lib me m n).proof
  unfolding pending_proof store_vote
  pending_proof-store_vote m n =
      ground (arith, get-put_self m.message.number (with_vote lib me m n) n.pending_checkpoints)

  -- A vote changes the last checkpoint only when it completes a quorum: the new one carries at least
  -- 2f + 1 votes, the latest among them, and it is after the old one.
  pub handle_checkpoint_quorum :
      (m : SignedCheckpoint) (n : Node)
      → ((handle_checkpoint_no_validation lib me m n).last_checkpoint ≡ n.last_checkpoint)
        ⊎ ((two_f lib me + 1
              ≤ length (handle_checkpoint_no_validation lib me m n).last_checkpoint.proof)
            × ((handle_checkpoint_no_validation lib me m n).last_checkpoint ≡ with_vote lib me m n)
            × (before_or_equal m.message.number n.last_checkpoint.number ≡ false))
  unfolding handle_checkpoint_no_validation is_stable store_vote
  handle_checkpoint_quorum m n = ground (
    arith,
    pending_proof-store_vote m n,
    (checkpointed-gets (with_vote lib me m n) (store_vote lib me m n) m.message.number).2,
  )
