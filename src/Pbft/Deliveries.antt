-- ===== src/Pbft/Deliveries.antt =====
-- What the client is handed when the commits of a slot come.
use distribute_pki.Base.{
  ◌≤◌, String, ◌≡◌, refl, sym, ◌∙◌, subst, inl, inr, true, false, not, ◌&&◌, ◌||◌, Option, List, [],
  ◌∷◌, arith, leb, if◌then◌else◌, Bool-cases, nat_eq, string_eq, length, All, ok, Map, put,
  get-put_self, length-put-le,
}
use distribute_pki.Pbft.SlotId.{SlotId, before, slot_id_eq}
use distribute_pki.Pbft.Messages.{NodeId, SignedCommit, Slot}
use distribute_pki.Pbft.Library.{Library, Host}
use distribute_pki.Pbft.Signing.{commit_signature_valid}
use distribute_pki.Pbft.Node.{
  Node, Effect, broadcast, send_rpc, committed, snapshot_requested, snapshotted, two_f,
  ensure_mapping, is_committed,
}
use distribute_pki.Pbft.Normal.{try_checkpoint, deliver, count_commit, record_commit, handle_commit}
use distribute_pki.Pbft.Commits.{handle_commits}
use distribute_pki.Pbft.Votes.{slot_at, slot_at-ensure_mapping}

-- The requests among the effects, the latest first.
abbrev pub requests_in : List Effect → List (Option String)
requests_in [] = []
requests_in (committed request ∷ sent) = request ∷ requests_in sent
requests_in (broadcast p ∷ sent) = requests_in sent
requests_in (send_rpc id p ∷ sent) = requests_in sent
requests_in (snapshot_requested s ∷ sent) = requests_in sent
requests_in (snapshotted s ∷ sent) = requests_in sent

-- What the node has handed to the client, the latest first.
abbrev pub delivered : Node → List (Option String)
delivered n = requests_in n.sent

-- Votes, put under the ids of their nodes.
abbrev pub collect : List SignedCommit → Map NodeId SignedCommit → Map NodeId SignedCommit
collect [] votes = votes
collect (m ∷ ms) votes = collect ms (put m.message.node m votes)

length-collect-le :
    (ms : List SignedCommit) (votes : Map NodeId SignedCommit)
    → length votes ≤ length (collect ms votes)
length-collect-le [] votes = omega arith
length-collect-le (m ∷ ms) votes =
    omega (
      arith,
      length-put-le m.message.node m votes,
      length-collect-le ms (put m.message.node m votes),
    )

pub ensure_mapping-rest :
    (number : SlotId) (n : Node)
    → (delivered (ensure_mapping number n).1 ≡ delivered n)
      × ((ensure_mapping number n).1.view_change ≡ n.view_change)
      × ((ensure_mapping number n).1.last_checkpoint ≡ n.last_checkpoint)
unfolding ensure_mapping
ensure_mapping-rest number n = (ground arith, ground arith, ground arith)

module _ (lib : Library) (me : Host lib) where
  -- A commit message for a slot that the node takes: signed by the node it names, whatever its digest.
  pub record IsCommitFor (number : SlotId) (m : SignedCommit) : Type 0 where
    pub for_slot : m.message.number ≡ number
    pub signed :
        commit_signature_valid lib me.peer_entities me.peer_entity_map m ≡ ok m.message.node

  -- What matters of a node when the commits of a slot come.
  record IsOpen (number : SlotId) (n : Node) : Type 0 where
    idle : n.view_change.in_progress ≡ false
    recent : before number n.last_checkpoint.number ≡ false

  -- What a commit message does to its slot.
  record Counts (number : SlotId) (votes : Map NodeId SignedCommit) (n k : Node) : Type 0 where
    open_after : IsOpen number k
    votes_after : (slot_at number k).commits ≡ votes
    request_after : (slot_at number k).request ≡ (slot_at number n).request
    committed_after :
        (slot_at number k).committed
        ≡ ((slot_at number n).committed || leb (two_f lib me) (length votes))
    delivered_after : delivered k ≡ (
        if not (slot_at number n).committed && leb (two_f lib me) (length votes)
        then (slot_at number n).request ∷ delivered n
        else delivered n)

  count_commit-Counts :
      (number : SlotId) (slot : Slot) (n : Node)
      → n.view_change.in_progress ≡ false
      → before number n.last_checkpoint.number ≡ false
      → let k : Node = count_commit lib me number slot n in
        IsOpen number k
        × ((slot_at number k).commits ≡ slot.commits)
        × ((slot_at number k).request ≡ slot.request)
        × ((slot_at number k).committed ≡ (slot.committed || is_committed lib me slot))
        × (delivered k ≡ (
            if not slot.committed && is_committed lib me slot
            then slot.request ∷ delivered n
            else delivered n))
  unfolding count_commit deliver try_checkpoint
  count_commit-Counts number slot n idle recent = ground (
    arith,
    get-put_self number slot n.log,
    get-put_self number (record slot { committed = true }) n.log,
  )

  handle_commit-Counts_own :
      (m : SignedCommit) (n : Node)
      → commit_signature_valid lib me.peer_entities me.peer_entity_map m ≡ ok m.message.node
      → IsOpen m.message.number n
      → Counts m.message.number
          (put m.message.node m (slot_at m.message.number n).commits)
          n
          (handle_commit lib me m n)
  unfolding handle_commit record_commit is_committed
  handle_commit-Counts_own m n c o =
      let number : SlotId = m.message.number in
      let (slot, n') = ensure_mapping number n in
      let (kept, change, last) = ensure_mapping-rest number n in
      let counted =
        count_commit-Counts number (record slot { commits = put m.message.node m slot.commits }) n'
          (ground (arith, change, o.idle)) (ground (arith, last, o.recent)) in
      ground (arith, c, o.idle, o.recent, kept, slot_at-ensure_mapping number n, counted)

  handle_commit-Counts :
      (number : SlotId) (m : SignedCommit) (n : Node)
      → IsOpen number n
      → IsCommitFor number m
      → Counts number (put m.message.node m (slot_at number n).commits) n (handle_commit lib me m n)
  handle_commit-Counts number m n o c =
      subst
        (λ j.
          IsOpen j n
          → Counts j (put m.message.node m (slot_at j n).commits) n (handle_commit lib me m n))
        c.for_slot (handle_commit-Counts_own m n c.signed) o

  -- Commits for a slot that is committed hand nothing over.
  delivered-handle_commits_committed :
      (number : SlotId) (ms : List SignedCommit) (n : Node)
      → IsOpen number n
      → All (IsCommitFor number) ms
      → (slot_at number n).committed ≡ true
      → (delivered (handle_commits lib me ms n) ≡ delivered n)
        × ((slot_at number (handle_commits lib me ms n)).committed ≡ true)
  unfolding handle_commits
  delivered-handle_commits_committed number [] n o h c = (refl, c)
  delivered-handle_commits_committed number (m ∷ ms) n o h c =
      let k : Node = handle_commit lib me m n in
      let one = handle_commit-Counts number m n o h.0 in
      let rest =
        delivered-handle_commits_committed number ms k one.open_after h.1
          (ground (arith, one.committed_after, c)) in
      (rest.0 ∙ ground (arith, one.delivered_after, c), rest.1)

  -- The request of a slot is handed to the client once, when commit messages come that bring the votes
  -- of the slot to 2f distinct nodes: whatever digests they carry, and in whatever order they come. The
  -- slot was not committed, no view change is in progress, the slot is not before the last checkpoint,
  -- and each message names the node that signed it.
  pub delivered-handle_commits :
      (number : SlotId) (m : SignedCommit) (ms : List SignedCommit) (n : Node)
      → n.view_change.in_progress ≡ false
      → before number n.last_checkpoint.number ≡ false
      → (slot_at number n).committed ≡ false
      → All (IsCommitFor number) (m ∷ ms)
      → two_f lib me ≤ length (collect (m ∷ ms) (slot_at number n).commits)
      → (delivered (handle_commits lib me (m ∷ ms) n) ≡ (slot_at number n).request ∷ delivered n)
        × ((slot_at number (handle_commits lib me (m ∷ ms) n)).committed ≡ true)
  unfolding handle_commits
  delivered-handle_commits number m [] n idle recent c h enough =
      let one = handle_commit-Counts number m n (record { idle = idle; recent = recent }) h.0 in
      (ground (arith, one.delivered_after, c, enough), ground (arith, one.committed_after, enough))
  delivered-handle_commits number m (m' ∷ ms) n idle recent c h enough =
      let k : Node = handle_commit lib me m n in
      let votes = put m.message.node m (slot_at number n).commits in
      let one = handle_commit-Counts number m n (record { idle = idle; recent = recent }) h.0 in
      elim (Bool-cases (leb (two_f lib me) (length votes))) [
        | inl now ↦
            let rest =
              delivered-handle_commits_committed number (m' ∷ ms) k one.open_after h.1
                (ground (arith, one.committed_after, now)) in
            (rest.0 ∙ ground (arith, one.delivered_after, c, now), rest.1)
        | inr later ↦
            let rest =
              delivered-handle_commits number m' ms k one.open_after.idle one.open_after.recent
                (ground (arith, one.committed_after, c, later)) h.1
                (subst (λ v. two_f lib me ≤ length (collect (m' ∷ ms) v)) (sym one.votes_after)
                  enough) in
            (rest.0 ∙ ground (arith, one.delivered_after, one.request_after, c, later), rest.1)
      ]
