-- ===== src/Pbft/Contents/Votes.antt =====
-- Prepares and commits leave the request and the digest of every slot.
use distribute_pki.Base.{inl, inr, true, arith, nat_eq, string_eq, Result-cases, put}
use distribute_pki.Pbft.SlotId.{SlotId, slot_id_eq}
use distribute_pki.Pbft.Messages.{Prepare, SignedPrepare, SignedCommit, Slot}
use distribute_pki.Pbft.Library.{Library, Host}
use distribute_pki.Pbft.Signing.{sign_commit}
use distribute_pki.Pbft.Node.{Node, ensure_mapping}
use distribute_pki.Pbft.Normal.{
  try_checkpoint, deliver, commit_for, send_commit, count_prepare, record_prepare, handle_prepare,
  count_commit, record_commit, handle_commit,
}
use distribute_pki.Pbft.Contents.{Content, Everywhere, put-Everywhere, ensure_mapping-Everywhere}

module _ (lib : Library) (me : Host lib) (Q : Content) where
  abbrev Filled : Node → Type 0
  Filled n = Everywhere Q n.log

  send_commit-Everywhere :
      (m : Prepare) (slot : Slot) (n : Node)
      → Q m.number slot.request slot.request_digest
      → Filled n
      → Filled (send_commit lib me m slot n)
  unfolding send_commit
  send_commit-Everywhere m slot n b h =
      elim (Result-cases (sign_commit lib (commit_for lib me m) me.entity)) [
        | inl (x, e) ↦ rw (e, send_commit) (put-Everywhere Q m.number _ n.log b h)
        | inr (signed, e) ↦ rw (e, send_commit) (put-Everywhere Q m.number _ n.log b h)
      ]

  pub handle_prepare-Everywhere :
      (m : SignedPrepare) (n : Node) → Filled n → Filled (handle_prepare lib me m n)
  unfolding handle_prepare record_prepare count_prepare
  handle_prepare-Everywhere m n h =
      let number : SlotId = m.message.number in
      let (slot, n') = ensure_mapping number n in
      let voted : Slot = record slot { prepares = put m.message.node m slot.prepares } in
      let (mapped, backed) = ensure_mapping-Everywhere Q number n h in
      ground (
        arith,
        h,
        send_commit-Everywhere m.message voted n' backed mapped,
        put-Everywhere Q number voted n'.log backed mapped,
      )

  pub handle_commit-Everywhere :
      (m : SignedCommit) (n : Node) → Filled n → Filled (handle_commit lib me m n)
  unfolding handle_commit record_commit count_commit deliver try_checkpoint
  handle_commit-Everywhere m n h =
      let number : SlotId = m.message.number in
      let (slot, n') = ensure_mapping number n in
      let voted : Slot = record slot { commits = put m.message.node m slot.commits } in
      let (mapped, backed) = ensure_mapping-Everywhere Q number n h in
      ground (
        arith,
        h,
        put-Everywhere Q number (record voted { committed = true }) n'.log backed mapped,
        put-Everywhere Q number voted n'.log backed mapped,
      )
