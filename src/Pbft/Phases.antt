-- ===== src/Pbft/Phases.antt =====
-- From the client's request at the primary over the prepares and the commits of the backups to the
-- client of a backup.
use distribute_pki.Base.{
  ◌≤◌, String, ◌≡◌, false, some, List, [], ◌∷◌, map, nat_eq, string_eq, length, All, All-map, ok,
}
use distribute_pki.Pbft.SlotId.{before, slot_id_eq}
use distribute_pki.Pbft.Messages.{SignedPrePrepare, SignedCommit}
use distribute_pki.Pbft.Library.{Library, SignaturesCheck, Host}
use distribute_pki.Pbft.Signing.{sign_pre_prepare}
use distribute_pki.Pbft.Node.{Node, broadcast, pre_prepare, two_f}
use distribute_pki.Pbft.Normal.{issued_id, handle_client_request, handle_pre_prepare}
use distribute_pki.Pbft.Commits.{handle_commits}
use distribute_pki.Pbft.Votes.{IsPeer, slot_at}
use distribute_pki.Pbft.Deliveries.{delivered, collect, IsCommitFor}
use distribute_pki.Pbft.Placement.{IsLeading, IsFollowing}
use distribute_pki.Pbft.Completion.{delivered-request}
use distribute_pki.Pbft.Preparations.{vote-IsCommitFor}
use distribute_pki.Pbft.Voting.{Voter, IsVoting, Votes, handle_pre_prepare-Votes}

module _ (lib : Library) where
  abbrev pub vote_of : Voter lib → SignedCommit
  vote_of v = v.vote

  votes-IsCommitFor :
      (leader peer : Host lib) (request : String) (l : Node) (voters : List (Voter lib))
      → SignaturesCheck lib
      → All (IsVoting lib leader request l) voters
      → All (λ v. IsPeer lib peer v.host.entity v.host.id) voters
      → All (IsCommitFor lib peer (issued_id lib leader l)) (map vote_of voters)
  votes-IsCommitFor leader peer request l [] check h known = tt
  votes-IsCommitFor leader peer request l (v ∷ vs) check h known = (
    vote-IsCommitFor lib v.host peer (issued_id lib leader l) (lib.sha256 request) check known.0
        h.0.vote_signed,
    votes-IsCommitFor leader peer request l vs check h.1 known.1,
  )

  -- A client's request at the primary comes to the client of a backup, once, by the three phases. The
  -- primary broadcasts a pre-prepare; each voter takes it, broadcasts its prepare and, once the prepares
  -- of a quorum came, its vote to commit; and the backup takes the pre-prepare and then these votes. The
  -- nodes are in one view and in no view change; the slot is empty at each, between its water marks,
  -- and at the backup not before the last checkpoint and not committed; the voters know those whose
  -- prepares come and the backup knows the voters, and the votes bring those of its slot to 2f distinct
  -- nodes; what is signed checks.
  pub request-delivered :
      (leader backup : Host lib) (request : String) (l b : Node) {signed : SignedPrePrepare}
      (v : Voter lib) (vs : List (Voter lib))
      → SignaturesCheck lib
      → IsLeading lib leader request l
      → IsFollowing lib leader backup l b
      → sign_pre_prepare lib
          (record { number = issued_id lib leader l; request_digest = lib.sha256 request })
          leader.entity
        ≡ ok signed
      → before (issued_id lib leader l) b.last_checkpoint.number ≡ false
      → (slot_at (issued_id lib leader l) b).committed ≡ false
      → All (IsVoting lib leader request l) (v ∷ vs)
      → All (λ w. IsPeer lib backup w.host.entity w.host.id) (v ∷ vs)
      → two_f lib backup
        ≤ length (collect (map vote_of (v ∷ vs)) (slot_at (issued_id lib leader l) b).commits)
      → ((handle_client_request lib leader request l).sent
          ≡ broadcast (pre_prepare (record { signed_message = signed; request = request }))
            ∷ l.sent)
        × All (Votes lib (record { signed_message = signed; request = request })) (v ∷ vs)
        × (k : Node) × (handle_pre_prepare lib backup
              (record { signed_message = signed; request = request })
              b
            ≡ some k)
        × (delivered (handle_commits lib backup (map vote_of (v ∷ vs)) k)
            ≡ some request ∷ delivered b)
  request-delivered leader backup request l b {signed} v vs check lead f e recent fresh h known
        enough =
      let (sends, k, handled, came) =
        delivered-request lib leader backup request l b {signed = signed} v.vote (map vote_of vs)
          check lead f e recent fresh
          (votes-IsCommitFor leader backup request l (v ∷ vs) check h known) enough in
      (
        sends,
        All-map (v ∷ vs) (λ w i. handle_pre_prepare-Votes lib leader request l w check lead e i) h,
        k,
        handled,
        came,
      )
