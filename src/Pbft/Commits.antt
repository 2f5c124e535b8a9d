-- ===== src/Pbft/Commits.antt =====
-- Commits: the quorum, and what reaches the client.
use distribute_pki.Base.{
  ℕ, ◌+◌, ◌≤◌, ◌≡◌, Bool, true, false, not, ◌&&◌, none, some, List, [], ◌∷◌, arith, if◌then◌else◌,
  nat_eq, string_eq, count, All, get, put, get-put_self,
}
use distribute_pki.Pbft.SlotId.{SlotId, slot_id_eq}
use distribute_pki.Pbft.Messages.{SignedCommit, Slot}
use distribute_pki.Pbft.Library.{Library, Host}
use distribute_pki.Pbft.Node.{
  Node, Effect, broadcast, send_rpc, committed, snapshot_requested, snapshotted, ensure_mapping,
}
use distribute_pki.Pbft.Normal.{try_checkpoint, deliver, count_commit, record_commit, handle_commit}

-- How many requests were handed to the client.
abbrev pub is_delivery : Effect → Bool
is_delivery (committed request) = true
is_delivery (broadcast p) = false
is_delivery (send_rpc id p) = false
is_delivery (snapshot_requested s) = false
is_delivery (snapshotted s) = false

abbrev pub deliveries : Node → ℕ
deliveries n = count is_delivery n.sent

-- Is the slot of a number marked committed?
abbrev pub has_committed : SlotId → Node → Bool
has_committed number n = elim (get number n.log) [ none ↦ false | some slot ↦ slot.committed ]

ensure_mapping-committed :
    (number : SlotId) (n : Node) → (ensure_mapping number n).0.committed ≡ has_committed number n
unfolding ensure_mapping
ensure_mapping-committed number n = ground arith

pub ensure_mapping-sent : (number : SlotId) (n : Node) → (ensure_mapping number n).1.sent ≡ n.sent
unfolding ensure_mapping
ensure_mapping-sent number n = ground arith

-- The deliveries of a commit: one if the slot becomes committed, and none otherwise.
module _ (lib : Library) (me : Host lib) where
  pub record Delivers (number : SlotId) (n k : Node) : Type 0 where
    pub marks : (has_committed number n && not (has_committed number k)) ≡ false
    pub counts :
        deliveries k
        ≡ deliveries n + (if has_committed number k && not (has_committed number n) then 1 else 0)

  count_commit-deliveries :
      (number : SlotId) (slot : Slot) (n : Node)
      → deliveries (count_commit lib me number slot n)
        ≡ deliveries n
          + (if has_committed number (count_commit lib me number slot n) && not slot.committed
              then 1
              else 0)
  unfolding count_commit deliver try_checkpoint
  count_commit-deliveries number slot n = ground (
    arith,
    get-put_self number slot n.log,
    get-put_self number (record slot { committed = true }) n.log,
  )

  count_commit-marks :
      (number : SlotId) (slot : Slot) (n : Node)
      → slot.committed ≡ true
      → has_committed number (count_commit lib me number slot n) ≡ true
  unfolding count_commit deliver try_checkpoint
  count_commit-marks number slot n h = ground (
    arith,
    get-put_self number slot n.log,
    get-put_self number (record slot { committed = true }) n.log,
  )

  record_commit-Delivers :
      (m : SignedCommit) (n : Node) → Delivers m.message.number n (record_commit lib me m n)
  unfolding record_commit
  record_commit-Delivers m n =
      let number : SlotId = m.message.number in
      let (slot, n') = ensure_mapping number n in
      let slot' : Slot = record slot { commits = put m.message.node m slot.commits } in
      ground (
        arith,
        count_commit-deliveries number slot' n',
        count_commit-marks number slot' n',
        ensure_mapping-committed number n,
        ensure_mapping-sent number n,
      )

  -- A commit message delivers one request if it turns its slot from not committed to committed, and
  -- none otherwise; and a committed slot stays committed.
  pub handle_commit-Delivers :
      (m : SignedCommit) (n : Node) → Delivers m.message.number n (handle_commit lib me m n)
  unfolding handle_commit
  handle_commit-Delivers m n = ground (arith, record_commit-Delivers m n)

  unfoldable pub handle_commits : List SignedCommit → Node → Node
  handle_commits [] n = n
  handle_commits (m ∷ ms) n = handle_commits ms (handle_commit lib me m n)

  handle_commits-Delivers :
      (number : SlotId) (ms : List SignedCommit) (n : Node)
      → All (λ m. m.message.number ≡ number) ms
      → Delivers number n (handle_commits ms n)
  unfolding handle_commits
  handle_commits-Delivers number [] n h = ground arith
  handle_commits-Delivers number (m ∷ ms) n h = ground (
    arith,
    handle_commit-Delivers m n,
    handle_commits-Delivers number ms (handle_commit lib me m n) h.1,
    h.0,
  )

  -- Any number of commit messages for one slot deliver at most one request, and none if the slot was
  -- committed before them.
  pub deliveries-handle_commits :
      (number : SlotId) (ms : List SignedCommit) (n : Node)
      → All (λ m. m.message.number ≡ number) ms
      → (deliveries n ≤ deliveries (handle_commits ms n))
        × (deliveries (handle_commits ms n)
            ≤ deliveries n + (if has_committed number n then 0 else 1))
  deliveries-handle_commits number ms n h = ground (arith, handle_commits-Delivers number ms n h)
