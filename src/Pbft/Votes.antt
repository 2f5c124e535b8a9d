-- ===== src/Pbft/Votes.antt =====
-- A vote that a known peer signs is accepted and counted.
use distribute_pki.Base.{
  ◌≡◌, inl, inr, true, false, ◌||◌, none, some, arith, leb, nat_eq, string_eq, length, Result-cases,
  ok, get, put, get-put_self,
}
use mathlib.Core.List.{Mem}
use distribute_pki.Pbft.SlotId.{SlotId, before, slot_id_eq}
use distribute_pki.Pbft.Messages.{NodeId, Prepare, SignedPrepare, Commit, SignedCommit, Slot}
use distribute_pki.Pbft.Library.{Library, SignaturesCheck, Host}
use distribute_pki.Pbft.Signing.{
  signer_id, sign_prepare, prepare_signature_valid, sign_commit, commit_signature_valid,
}
use distribute_pki.Pbft.Signatures.{message-sign_prepare, message-sign_commit}
use distribute_pki.Pbft.Node.{Node, two_f, empty_slot, ensure_mapping, is_prepared, is_committed}
use distribute_pki.Pbft.Normal.{
  commit_for, try_checkpoint, deliver, send_commit, count_prepare, record_prepare, handle_prepare,
  count_commit, record_commit, handle_commit,
}
use distribute_pki.Pbft.Commits.{has_committed}

-- An entity is one of the node's peers, under an id.
pub record IsPeer (lib : Library) (me : Host lib) (entity : lib.Entity) (id : NodeId) : Type 0 where
  pub in_ring : Mem entity me.peer_entities
  pub named : get (lib.fingerprint entity) me.peer_entity_map ≡ some id

-- The slot of a number, empty where the log has none.
abbrev pub slot_at : SlotId → Node → Slot
slot_at number n = elim (get number n.log) [ none ↦ empty_slot | some slot ↦ slot ]

pub slot_at-ensure_mapping :
    (number : SlotId) (n : Node) → (ensure_mapping number n).0 ≡ slot_at number n
unfolding ensure_mapping
slot_at-ensure_mapping number n = ground arith

module _ (lib : Library) (me : Host lib) where
  pub prepare_signature_valid-sign :
      (m : Prepare) (entity : lib.Entity) (id : NodeId) {s : SignedPrepare}
      → SignaturesCheck lib
      → IsPeer lib me entity id
      → sign_prepare lib m entity ≡ ok s
      → prepare_signature_valid lib me.peer_entities me.peer_entity_map s ≡ ok id
  unfolding sign_prepare prepare_signature_valid signer_id
  prepare_signature_valid-sign m entity id {s} check peer h =
      elim (Result-cases (lib.encode_prepare m)) [
        | inl (e, p) ↦ ground arith
        | inr (text, p) ↦ elim (Result-cases (lib.detach_sign entity text)) [
          | inl (e, q) ↦ ground arith
          | inr (signature, q) ↦
              ground
                (arith, check entity me.peer_entities text signature peer.in_ring q, peer.named)
        ]
      ]

  pub commit_signature_valid-sign :
      (m : Commit) (entity : lib.Entity) (id : NodeId) {s : SignedCommit}
      → SignaturesCheck lib
      → IsPeer lib me entity id
      → sign_commit lib m entity ≡ ok s
      → commit_signature_valid lib me.peer_entities me.peer_entity_map s ≡ ok id
  unfolding sign_commit commit_signature_valid signer_id
  commit_signature_valid-sign m entity id {s} check peer h =
      elim (Result-cases (lib.encode_commit m)) [
        | inl (e, p) ↦ ground arith
        | inr (text, p) ↦ elim (Result-cases (lib.detach_sign entity text)) [
          | inl (e, q) ↦ ground arith
          | inr (signature, q) ↦
              ground
                (arith, check entity me.peer_entities text signature peer.in_ring q, peer.named)
        ]
      ]

  count_prepare-slot :
      (m : Prepare) (slot : Slot) (n : Node)
      → ((slot_at m.number (count_prepare lib me m slot n)).prepares ≡ slot.prepares)
        × ((slot_at m.number (count_prepare lib me m slot n)).prepared ≡ (
            slot.prepared || is_prepared lib me (slot_at m.number (count_prepare lib me m slot n))))
  unfolding count_prepare send_commit is_prepared
  count_prepare-slot m slot n =
      elim (Result-cases (sign_commit lib (commit_for lib me m) me.entity)) [
        | inl (e, p) ↦ ground (
          arith,
          get-put_self m.number slot n.log,
          get-put_self m.number (record slot { prepared = true }) n.log,
        )
        | inr (signed, p) ↦ ground (
          arith,
          get-put_self m.number slot n.log,
          get-put_self m.number
              (record slot { prepared = true; commits = put me.id signed slot.commits }) n.log,
        )
      ]

  count_commit-slot :
      (number : SlotId) (slot : Slot) (n : Node)
      → ((slot_at number (count_commit lib me number slot n)).commits ≡ slot.commits)
        × (has_committed number (count_commit lib me number slot n)
            ≡ (slot.committed || is_committed lib me slot))
  unfolding count_commit deliver try_checkpoint
  count_commit-slot number slot n = ground (
    arith,
    get-put_self number slot n.log,
    get-put_self number (record slot { committed = true }) n.log,
  )

  -- A prepare message that a known peer signed under its own id is counted, when no view change is in
  -- progress: the slot then has the votes it had, with this one under the peer's id, and it is marked
  -- prepared if these votes and its pre-prepare make it so.
  pub handle_prepare-counts :
      (m : Prepare) (entity : lib.Entity) (n : Node) {s : SignedPrepare}
      → SignaturesCheck lib
      → IsPeer lib me entity m.node
      → sign_prepare lib m entity ≡ ok s
      → n.view_change.in_progress ≡ false
      → ((slot_at m.number (handle_prepare lib me s n)).prepares
          ≡ put m.node s (slot_at m.number n).prepares)
        × ((slot_at m.number (handle_prepare lib me s n)).prepared ≡ (
            (slot_at m.number n).prepared
            || is_prepared lib me (slot_at m.number (handle_prepare lib me s n))))
  unfolding handle_prepare record_prepare
  handle_prepare-counts m entity n {s} check peer h idle =
      let (slot, n') = ensure_mapping m.number n in
      ground (
        arith,
        message-sign_prepare lib m entity h,
        prepare_signature_valid-sign m entity m.node check peer h,
        slot_at-ensure_mapping m.number n,
        count_prepare-slot m (record slot { prepares = put m.node s slot.prepares }) n',
      )

  -- A commit message that a known peer signed under its own id is counted, when no view change is in
  -- progress and the slot is not before the last checkpoint: the slot then has the votes it had, with
  -- this one under the peer's id, and it is committed exactly if it was or these are at least 2f.
  pub handle_commit-counts :
      (m : Commit) (entity : lib.Entity) (n : Node) {s : SignedCommit}
      → SignaturesCheck lib
      → IsPeer lib me entity m.node
      → sign_commit lib m entity ≡ ok s
      → n.view_change.in_progress ≡ false
      → before m.number n.last_checkpoint.number ≡ false
      → ((slot_at m.number (handle_commit lib me s n)).commits
          ≡ put m.node s (slot_at m.number n).commits)
        × (has_committed m.number (handle_commit lib me s n) ≡ (
            has_committed m.number n
            || leb (two_f lib me) (length (put m.node s (slot_at m.number n).commits))))
  unfolding handle_commit record_commit is_committed
  handle_commit-counts m entity n {s} check peer h idle above =
      let (slot, n') = ensure_mapping m.number n in
      ground (
        arith,
        message-sign_commit lib m entity h,
        commit_signature_valid-sign m entity m.node check peer h,
        slot_at-ensure_mapping m.number n,
        count_commit-slot m.number (record slot { commits = put m.node s slot.commits }) n',
      )
