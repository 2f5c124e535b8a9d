-- ===== src/Pbft/Completion.antt =====
-- From the client's request at the primary to the client of a backup.
use distribute_pki.Base.{
  ◌≤◌, String, ◌≡◌, sym, ap, ◌∙◌, subst, inl, inr, false, none, some, List, ◌∷◌, arith, nat_eq,
  string_eq, length, All, Result-cases, ok, put, get-put_self,
}
use distribute_pki.Pbft.SlotId.{SlotId, before, slot_id_eq}
use distribute_pki.Pbft.Messages.{PrePrepare, FullPrePrepare, SignedPrePrepare, SignedCommit, Slot}
use distribute_pki.Pbft.Library.{Library, SignaturesCheck, Host}
use distribute_pki.Pbft.Signing.{sign_prepare, sign_pre_prepare}
use distribute_pki.Pbft.Node.{
  Node, running, broadcast, pre_prepare, get_timeout, ensure_mapping, two_f,
}
use distribute_pki.Pbft.Normal.{
  prepare_for, issued_id, accept_pre_prepare, fill_slot, place_pre_prepare, handle_client_request,
  handle_pre_prepare,
}
use distribute_pki.Pbft.Signatures.{message-sign_pre_prepare}
use distribute_pki.Pbft.Commits.{handle_commits}
use distribute_pki.Pbft.Votes.{slot_at, slot_at-ensure_mapping}
use distribute_pki.Pbft.Deliveries.{
  delivered, collect, IsCommitFor, ensure_mapping-rest, delivered-handle_commits,
}
use distribute_pki.Pbft.Placement.{IsLeading, IsFollowing, filled_slot, place_pre_prepare-slot}
use distribute_pki.Pbft.Adoption.{handle_pre_prepare-places, handle_pre_prepare-adopts}

-- What a pre-prepare for a slot leaves as it was, that commits for the slot depend on.
record Continues (number : SlotId) (n k : Node) : Type 0 where
  change : k.view_change ≡ n.view_change
  checkpoint : k.last_checkpoint ≡ n.last_checkpoint
  same_delivered : delivered k ≡ delivered n
  commits : (slot_at number k).commits ≡ (slot_at number n).commits
  committed : (slot_at number k).committed ≡ (slot_at number n).committed

module _ (lib : Library) (me : Host lib) where
  accept_pre_prepare-rest :
      (full : FullPrePrepare) (slot : Slot) (n : Node)
      → ((accept_pre_prepare lib me full slot n).view_change ≡ n.view_change)
        × ((accept_pre_prepare lib me full slot n).last_checkpoint ≡ n.last_checkpoint)
        × (delivered (accept_pre_prepare lib me full slot n) ≡ delivered n)
  unfolding accept_pre_prepare
  accept_pre_prepare-rest full slot n = (ground arith, ground arith, ground arith)

  accept_pre_prepare-votes :
      (full : FullPrePrepare) (slot : Slot) (n : Node)
      → ((slot_at full.signed_message.message.number
            (accept_pre_prepare lib me full slot n)).commits
          ≡ slot.commits)
        × ((slot_at full.signed_message.message.number
              (accept_pre_prepare lib me full slot n)).committed
            ≡ slot.committed)
  unfolding accept_pre_prepare
  accept_pre_prepare-votes full slot n =
      let number : SlotId = full.signed_message.message.number in
      elim (Result-cases
        (sign_prepare lib (prepare_for lib me full.signed_message.message) me.entity)) [
          | inl (x, e) ↦
              let put_self = get-put_self number (filled_slot lib full slot) n.log in
              (ground (arith, put_self), ground (arith, put_self))
          | inr (signed, e) ↦
              let voted : Slot = record (filled_slot lib full slot) {
                prepares = put me.id signed slot.prepares;
              } in
              let put_self =
                get-put_self number voted (put number (filled_slot lib full slot) n.log) in
              (ground (arith, put_self), ground (arith, put_self))
        ]

  place_pre_prepare-Continues :
      (full : FullPrePrepare) (n : Node)
      → (slot_at full.signed_message.message.number n).request ≡ none
      → Continues full.signed_message.message.number n (place_pre_prepare lib me full n)
  unfolding place_pre_prepare fill_slot
  place_pre_prepare-Continues full n h =
      let number : SlotId = full.signed_message.message.number in
      let (slot, n') = ensure_mapping number n in
      let same = slot_at-ensure_mapping number n in
      let rest = accept_pre_prepare-rest full slot n' in
      let votes = accept_pre_prepare-votes full slot n' in
      let mapped = ensure_mapping-rest number n in
      record {
        change = ground (arith, same, rest, mapped);
        checkpoint = ground (arith, same, rest, mapped);
        same_delivered = ground (arith, same, rest, mapped);
        commits = ground (arith, same, votes);
        committed = ground (arith, same, votes);
      }

module _ (lib : Library) where
  -- A client's request at the primary comes to the client of a backup, once: the backup handles the
  -- pre-prepare that the primary broadcasts for it, and then commit messages that bring the votes of the
  -- slot to 2f distinct nodes, whatever their digests and their order. Primary and backup are in one
  -- view and in no view change; the slot is empty at the backup, between its water marks, not before its
  -- last checkpoint and not committed; each commit names the node that signed it, and what is signed
  -- checks.
  pub delivered-request :
      (leader backup : Host lib) (request : String) (l b : Node) {signed : SignedPrePrepare}
      (m : SignedCommit) (ms : List SignedCommit)
      → SignaturesCheck lib
      → IsLeading lib leader request l
      → IsFollowing lib leader backup l b
      → sign_pre_prepare lib
          (record { number = issued_id lib leader l; request_digest = lib.sha256 request })
          leader.entity
        ≡ ok signed
      → before (issued_id lib leader l) b.last_checkpoint.number ≡ false
      → (slot_at (issued_id lib leader l) b).committed ≡ false
      → All (IsCommitFor lib backup (issued_id lib leader l)) (m ∷ ms)
      → two_f lib backup ≤ length (collect (m ∷ ms) (slot_at (issued_id lib leader l) b).commits)
      → ((handle_client_request lib leader request l).sent
          ≡ broadcast (pre_prepare (record { signed_message = signed; request = request }))
            ∷ l.sent)
        × (k : Node) × (handle_pre_prepare lib backup
              (record { signed_message = signed; request = request })
              b
            ≡ some k)
        × (delivered (handle_commits lib backup (m ∷ ms) k) ≡ some request ∷ delivered b)
  delivered-request leader backup request l b {signed} m ms check lead f e recent fresh h enough =
      let number : SlotId = issued_id lib leader l in
      let full : FullPrePrepare = record { signed_message = signed; request = request } in
      let timed : Node = record b { timeout_timer = running (get_timeout lib backup b) } in
      let k : Node = place_pre_prepare lib backup full timed in
      let adopts = handle_pre_prepare-adopts lib leader backup request l b check lead f e in
      let same : signed.message.number ≡ number =
        ap (λ (p : PrePrepare). p.number) (message-sign_pre_prepare lib _ leader.entity e) in
      let empty = ap (λ j. (slot_at j b).request) same ∙ f.empty in
      let shows : (slot_at number k).request ≡ some request =
        ap (λ j. (slot_at j k).request) (sym same)
        ∙ (place_pre_prepare-slot lib backup full timed empty).0 in
      let placed = place_pre_prepare-Continues lib backup full timed empty in
      let c : Continues number b k =
        subst (λ j. Continues j b k) same
          (record {
            change = placed.change;
            checkpoint = placed.checkpoint;
            same_delivered = placed.same_delivered;
            commits = placed.commits;
            committed = placed.committed;
          }) in
      let done =
        delivered-handle_commits lib backup number m ms k
          (ap (λ v. v.in_progress) c.change ∙ f.idle)
          (ap (λ p. before number p.number) c.checkpoint ∙ recent) (c.committed ∙ fresh) h
          (subst (λ v. two_f lib backup ≤ length (collect (m ∷ ms) v)) (sym c.commits) enough) in
      (
        adopts.0,
        k,
        handle_pre_prepare-places lib leader backup request l b check lead f e,
        done.0 ∙ ap (λ r. r ∷ delivered k) shows ∙ ap (λ d. some request ∷ d) c.same_delivered,
      )
