-- ===== src/Pbft/Preparations.antt =====
-- When a backup that has a proposal gets the prepares of a quorum, it votes to commit.
use distribute_pki.Base.{
  ◌≤◌, ◌≡◌, sym, ap, ◌∙◌, subst, true, false, ◌&&◌, List, [], ◌∷◌, arith, leb, is_some, nat_eq,
  string_eq, length, All, ok, Map, put, get-put_self,
}
use distribute_pki.Pbft.SlotId.{SlotId, slot_id_eq}
use distribute_pki.Pbft.Messages.{
  NodeId, Digest, PrePrepare, Prepare, SignedPrepare, Commit, SignedCommit, Slot,
}
use distribute_pki.Pbft.Library.{Library, SignaturesCheck, Host}
use distribute_pki.Pbft.Signing.{sign_prepare, sign_commit, prepare_signature_valid}
use distribute_pki.Pbft.Signatures.{message-sign_prepare, message-sign_commit}
use distribute_pki.Pbft.Node.{Node, Effect, broadcast, commit, two_f, ensure_mapping, is_prepared}
use distribute_pki.Pbft.Normal.{
  prepare_for, commit_for, send_commit, count_prepare, record_prepare, handle_prepare,
}
use distribute_pki.Pbft.Votes.{
  IsPeer, slot_at, slot_at-ensure_mapping, prepare_signature_valid-sign,
  commit_signature_valid-sign,
}
use distribute_pki.Pbft.Commits.{ensure_mapping-sent}
use distribute_pki.Pbft.Deliveries.{IsCommitFor, ensure_mapping-rest}

-- Votes, put under the ids of their nodes.
abbrev pub collect_prepares :
    List SignedPrepare → Map NodeId SignedPrepare → Map NodeId SignedPrepare
collect_prepares [] votes = votes
collect_prepares (m ∷ ms) votes = collect_prepares ms (put m.message.node m votes)

module _ (lib : Library) (me : Host lib) where
  unfoldable pub handle_prepares : List SignedPrepare → Node → Node
  handle_prepares [] n = n
  handle_prepares (m ∷ ms) n = handle_prepares ms (handle_prepare lib me m n)

  -- A prepare message for a slot with a digest, signed by the node it names.
  pub record IsPrepareFor (number : SlotId) (digest : Digest) (m : SignedPrepare) : Type 0 where
    pub for_slot : m.message.number ≡ number
    pub same_digest : m.message.request_digest ≡ digest
    pub signed :
        prepare_signature_valid lib me.peer_entities me.peer_entity_map m ≡ ok m.message.node

  -- The vote of the node for a slot and a digest.
  abbrev pub vote_for : SlotId → Digest → Commit
  vote_for number digest = record { number = number; request_digest = digest; node = me.id }

  -- What a prepare message does to its slot, and what it makes the node send.
  record Prepares (number : SlotId) (votes : Map NodeId SignedPrepare) (vote : SignedCommit)
      (n k : Node) : Type 0 where
    idle : k.view_change.in_progress ≡ false
    votes_after : (slot_at number k).prepares ≡ votes
    preprepare_after : (slot_at number k).preprepare ≡ (slot_at number n).preprepare
    sends :
        (is_some (slot_at number n).preprepare && leb (two_f lib me) (length votes)) ≡ true
        → (k.sent ≡ broadcast (commit vote) ∷ n.sent) × ((slot_at number k).prepared ≡ true)

  count_prepare-Prepares :
      (m : Prepare) (slot : Slot) (n : Node) {vote : SignedCommit}
      → sign_commit lib (commit_for lib me m) me.entity ≡ ok vote
      → let k : Node = count_prepare lib me m slot n in
        (k.view_change ≡ n.view_change)
        × ((slot_at m.number k).prepares ≡ slot.prepares)
        × ((slot_at m.number k).preprepare ≡ slot.preprepare)
        × (is_prepared lib me slot ≡ true
            → (k.sent ≡ broadcast (commit vote) ∷ n.sent) × ((slot_at m.number k).prepared ≡ true))
  unfolding count_prepare send_commit is_prepared
  count_prepare-Prepares m slot n {vote} e =
      let kept = get-put_self m.number slot n.log in
      let voted =
        get-put_self m.number
          (record slot { prepared = true; commits = put me.id vote slot.commits }) n.log in
      (
        ground (arith, e),
        ground (arith, e, kept, voted),
        ground (arith, e, kept, voted),
        λ h. (ground (arith, e, h), ground (arith, e, h, voted)),
      )

  handle_prepare-Prepares_own :
      (m : SignedPrepare) (n : Node) {vote : SignedCommit}
      → prepare_signature_valid lib me.peer_entities me.peer_entity_map m ≡ ok m.message.node
      → sign_commit lib (commit_for lib me m.message) me.entity ≡ ok vote
      → n.view_change.in_progress ≡ false
      → Prepares m.message.number
          (put m.message.node m (slot_at m.message.number n).prepares)
          vote
          n
          (handle_prepare lib me m n)
  unfolding handle_prepare record_prepare is_prepared
  handle_prepare-Prepares_own m n valid e i =
      let number : SlotId = m.message.number in
      let (slot, n') = ensure_mapping number n in
      let same = slot_at-ensure_mapping number n in
      let sent = ensure_mapping-sent number n in
      let (kept, change, last) = ensure_mapping-rest number n in
      let counted =
        count_prepare-Prepares m.message
          (record slot { prepares = put m.message.node m slot.prepares }) n' e in
      record {
        idle = ground (arith, valid, i, change, counted.0);
        votes_after = ground (arith, valid, i, same, counted.1);
        preprepare_after = ground (arith, valid, i, same, counted.2);
        sends = λ h.
            let out = counted.3 (ground (arith, same, h)) in
            (ground (arith, valid, i, sent, out.0), ground (arith, valid, i, out.1));
      }

  handle_prepare-Prepares :
      (number : SlotId) (digest : Digest) (m : SignedPrepare) (n : Node) {vote : SignedCommit}
      → IsPrepareFor number digest m
      → sign_commit lib (vote_for number digest) me.entity ≡ ok vote
      → n.view_change.in_progress ≡ false
      → Prepares number
          (put m.message.node m (slot_at number n).prepares)
          vote
          n
          (handle_prepare lib me m n)
  handle_prepare-Prepares number digest m n {vote} p e i =
      let same : commit_for lib me m.message ≡ vote_for number digest =
        ground (arith, p.for_slot, p.same_digest) in
      subst
        (λ j.
          Prepares j (put m.message.node m (slot_at j n).prepares) vote n
            (handle_prepare lib me m n))
        p.for_slot
        (handle_prepare-Prepares_own m n p.signed
          (subst (λ k. sign_commit lib k me.entity ≡ ok vote) (sym same) e) i)

  -- The vote of a node is a commit for the slot to every node that knows it.
  pub vote-IsCommitFor :
      (peer : Host lib) (number : SlotId) (digest : Digest) {vote : SignedCommit}
      → SignaturesCheck lib
      → IsPeer lib peer me.entity me.id
      → sign_commit lib (vote_for number digest) me.entity ≡ ok vote
      → IsCommitFor lib peer number vote
  vote-IsCommitFor peer number digest {vote} check known e =
      let same = message-sign_commit lib (vote_for number digest) me.entity e in
      record {
        for_slot = ap (λ (m : Commit). m.number) same;
        signed =
            commit_signature_valid-sign lib peer (vote_for number digest) me.entity me.id check
              known e
            ∙ ap (λ (m : Commit). ok m.node) (sym same);
      }

  -- The prepare that a peer signed for a pre-prepare is one for its slot and digest.
  pub signed-IsPrepareFor :
      (peer : Host lib) (m : PrePrepare) {own : SignedPrepare}
      → SignaturesCheck lib
      → IsPeer lib me peer.entity peer.id
      → sign_prepare lib (prepare_for lib peer m) peer.entity ≡ ok own
      → IsPrepareFor m.number m.request_digest own
  signed-IsPrepareFor peer m {own} check known e =
      let same = message-sign_prepare lib (prepare_for lib peer m) peer.entity e in
      record {
        for_slot = ap (λ (p : Prepare). p.number) same;
        same_digest = ap (λ (p : Prepare). p.request_digest) same;
        signed =
            prepare_signature_valid-sign lib me (prepare_for lib peer m) peer.entity peer.id check
              known e
            ∙ ap (λ (p : Prepare). ok p.node) (sym same);
      }

  -- When prepare messages of distinct nodes come that bring the votes of a slot with a pre-prepare to
  -- 2f, in whatever order, the last thing that the node sends is its vote to commit, for that slot and
  -- the digest of the prepares, and the slot is prepared.
  pub handle_prepares-votes :
      (number : SlotId) (digest : Digest) (m : SignedPrepare) (ms : List SignedPrepare) (n : Node)
      {vote : SignedCommit}
      → n.view_change.in_progress ≡ false
      → is_some (slot_at number n).preprepare ≡ true
      → sign_commit lib (vote_for number digest) me.entity ≡ ok vote
      → All (IsPrepareFor number digest) (m ∷ ms)
      → two_f lib me ≤ length (collect_prepares (m ∷ ms) (slot_at number n).prepares)
      → (earlier : List Effect) × ((handle_prepares (m ∷ ms) n).sent
          ≡ broadcast (commit vote) ∷ earlier)
        × ((slot_at number (handle_prepares (m ∷ ms) n)).prepared ≡ true)
  unfolding handle_prepares
  handle_prepares-votes number digest m [] n {vote} i p e h enough =
      let one = handle_prepare-Prepares number digest m n h.0 e i in
      let (sent, prepared) = one.sends (ground (arith, p, enough)) in (n.sent, sent, prepared)
  handle_prepares-votes number digest m (m' ∷ ms) n i p e h enough =
      let k : Node = handle_prepare lib me m n in
      let one = handle_prepare-Prepares number digest m n h.0 e i in
      handle_prepares-votes number digest m' ms k one.idle (ground (arith, one.preprepare_after, p))
        e h.1
        (subst (λ v. two_f lib me ≤ length (collect_prepares (m' ∷ ms) v)) (sym one.votes_after)
          enough)
