-- ===== src/Pbft/ViewChanges.antt =====
-- `startViewChange`, `enterNewView` and the proofs of a view change, of src/pbft/view_change.go.
-- `none` is a panic: a nil pointer is read.
use distribute_pki.Base.{
  Bool, ℕ, true, false, ◌&&◌, ◌||◌, Option, none, some, [], ◌∷◌, ltb, ◌==◌, if◌then◌else◌, nat_eq,
  string_eq, ok, err, and_then, Map, put,
}
use distribute_pki.Pbft.SlotId.{SlotId, before, slot_id_eq}
use distribute_pki.Pbft.Messages.{Slot, PreparedProof, ViewChange}
use distribute_pki.Pbft.Library.{Library, Host}
use distribute_pki.Pbft.Signing.{sign_view_change}
use distribute_pki.Pbft.Node.{
  Node, broadcast, view_change, emit, is_prepared, start_timers, stop_timers,
}

-- The proof for one slot reads through its pointers.
unfoldable pub prepared_proof : SlotId → Slot → Option PreparedProof
prepared_proof id slot = elim slot.request [
  | none ↦ none
  | some request ↦ elim slot.preprepare [
    | none ↦ none
    | some preprepare ↦ some (record {
      number = id;
      request = request;
      preprepare = preprepare;
      request_digest = slot.request_digest;
      prepares = slot.prepares;
    })
  ]
]

module _ (lib : Library) (me : Host lib) where
  -- The loop over the log, from the last checkpoint's number.
  unfoldable pub proofs_since : SlotId → Map SlotId Slot → Option (Map SlotId PreparedProof)
  proofs_since last [] = some []
  proofs_since last ((id, slot) ∷ log) =
      let rest = proofs_since last log in
      if before last id && is_prepared lib me slot
      then and_then (prepared_proof id slot) (λ p. and_then rest λ ps. some (put id p ps))
      else rest

  unfoldable pub generate_proofs_since_checkpoint : Node → Option (Map SlotId PreparedProof)
  generate_proofs_since_checkpoint n = proofs_since n.last_checkpoint.number n.log

  unfoldable pub begin_view_change : ℕ → Node → Node
  begin_view_change view n = record n {
    view_change = record n.view_change { in_progress = true; view_number = view };
  }

  abbrev pub view_change_for : ℕ → Map SlotId PreparedProof → Node → ViewChange
  view_change_for view proofs n = record {
    view_number = view;
    checkpoint = n.last_checkpoint.number;
    checkpoint_proof = n.last_checkpoint.proof;
    proofs = proofs;
    node = me.id;
  }

  -- The message is signed and sent; if it cannot be signed, the timers go on.
  unfoldable pub announce_view_change : ℕ → Map SlotId PreparedProof → Node → Node
  announce_view_change view proofs n =
      elim (sign_view_change lib (view_change_for view proofs n) me.entity) [
        | err e ↦ n
        | ok signed ↦ emit (broadcast (view_change signed)) (stop_timers n)
      ]

  -- The early return: a later view change was seen, or this one is in progress.
  unfoldable pub is_outdated : ℕ → Node → Bool
  is_outdated view n =
      ltb view n.view_change.view_number
      || (n.view_change.in_progress && (n.view_change.view_number == view))

  unfoldable pub start_view_change : ℕ → Node → Option Node
  start_view_change view n =
      if n.down
      then some n
      else if is_outdated view n
      then some n
      else and_then (generate_proofs_since_checkpoint (begin_view_change view n))
          λ proofs. some (announce_view_change view proofs (begin_view_change view n))

  unfoldable pub enter_new_view : ℕ → Node → Node
  enter_new_view view n = start_timers lib me (record n {
    view_change = record n.view_change { in_progress = false };
    view_number = view;
    sequence_number =
        (if ltb 1 n.last_checkpoint.number.seq_number
          then n.last_checkpoint.number.seq_number
          else 1);
  })
