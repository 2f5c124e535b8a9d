-- ===== src/Pbft/Normal/Quorums.antt =====
-- `handlePrepare` and `handleCommit` of src/pbft/node.go. A log line has no effect.
use distribute_pki.Base.{true, not, ◌&&◌, ◌==◌, if◌then◌else◌, nat_eq, string_eq, ok, err, put}
use distribute_pki.Pbft.SlotId.{SlotId, before, slot_id_eq}
use distribute_pki.Pbft.Messages.{Prepare, SignedPrepare, Commit, SignedCommit, Slot}
use distribute_pki.Pbft.Library.{Library, Host}
use distribute_pki.Pbft.Signing.{sign_commit, prepare_signature_valid, commit_signature_valid}
use distribute_pki.Pbft.Node.{Node, broadcast, emit, ensure_mapping, is_prepared, is_committed}
use distribute_pki.Pbft.Node.{commit}
use distribute_pki.Pbft.Normal.Requests.{deliver}

module _ (lib : Library) (me : Host lib) where
  abbrev pub commit_for : Prepare → Commit
  commit_for m = record { number = m.number; request_digest = m.request_digest; node = me.id }

  -- The end of `handlePrepare`, at a slot that has become prepared. The commit carries the digest
  -- of the prepare message.
  unfoldable pub send_commit : Prepare → Slot → Node → Node
  send_commit m slot n =
      let slot' : Slot = record slot { prepared = true } in
      elim (sign_commit lib (commit_for m) me.entity) [
        | err e ↦ record n { log = put m.number slot' n.log }
        | ok signed ↦ emit (broadcast (commit signed)) (record n {
          log = put m.number (record slot' { commits = put me.id signed slot'.commits }) n.log;
        })
      ]

  -- The end of `handlePrepare`, at the slot with the new vote.
  unfoldable pub count_prepare : Prepare → Slot → Node → Node
  count_prepare m slot n =
      if is_prepared lib me slot
      then send_commit m slot n
      else record n { log = put m.number slot n.log }

  -- `handlePrepare` after its checks. A digest that differs from the slot's is only logged.
  unfoldable pub record_prepare : SignedPrepare → Node → Node
  record_prepare message n =
      let m : Prepare = message.message in
      let (slot, n') = ensure_mapping m.number n in
      count_prepare m (record slot { prepares = put m.node message slot.prepares }) n'

  unfoldable pub handle_prepare : SignedPrepare → Node → Node
  handle_prepare message n =
      if n.view_change.in_progress
      then n
      else elim (prepare_signature_valid lib me.peer_entities me.peer_entity_map message) [
        | err e ↦ n
        | ok sender ↦ if not (sender == message.message.node) then n else record_prepare message n
      ]

  -- The end of `handleCommit`, at the slot with the new vote.
  unfoldable pub count_commit : SlotId → Slot → Node → Node
  count_commit number slot n =
      if not slot.committed && is_committed lib me slot
      then deliver number slot n
      else record n { log = put number slot n.log }

  -- `handleCommit` after its checks. A digest that differs from the slot's is only logged.
  unfoldable pub record_commit : SignedCommit → Node → Node
  record_commit message n =
      let m : Commit = message.message in
      let (slot, n') = ensure_mapping m.number n in
      count_commit m.number (record slot { commits = put m.node message slot.commits }) n'

  unfoldable pub handle_commit : SignedCommit → Node → Node
  handle_commit message n =
      if n.view_change.in_progress
      then n
      else elim (commit_signature_valid lib me.peer_entities me.peer_entity_map message) [
        | err e ↦ n
        | ok sender ↦
            if not (sender == message.message.node)
            then n
            else if before message.message.number n.last_checkpoint.number
            then n
            else record_commit message n
      ]
