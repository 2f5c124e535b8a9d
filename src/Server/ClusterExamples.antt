-- ===== src/Server/ClusterExamples.antt =====
-- A key that the primary's key server accepts comes to the key server of node 2 of the toy cluster.
use distribute_pki.Base.{◌≡◌, refl, inl, true, some, [], ◌∷◌, if◌then◌else◌, nat_eq, string_eq, All}
use text.Mathlib.Text.{◌==◌ as str_eq}
use distribute_pki.Pbft.Node.{Node, broadcast, pre_prepare, init, is_primary}
use distribute_pki.Pbft.Config.{leader_for}
use distribute_pki.Pbft.Signing.{sign_pre_prepare}
use distribute_pki.Pbft.Messages.{FullPrePrepare}
use distribute_pki.Pbft.Normal.{handle_client_request, handle_pre_prepare}
use distribute_pki.Pbft.Commits.{handle_commits}
use distribute_pki.Pbft.Deliveries.{delivered}
use distribute_pki.Pbft.Fixtures
use distribute_pki.Pbft.Fixtures.{toy-SignaturesCheck, backup, leader, proposal}
use distribute_pki.Pbft.AnswerExamples.{init-IsLeading, init-IsFollowing, enough_commits}
use distribute_pki.Pbft.Voting.{Voter, Votes}
use distribute_pki.Pbft.PhaseExamples.{
  commit_by, voter_three, voter_four, voters-IsVoting, voters-IsPeer, enough_votes,
}
use distribute_pki.Server.Keystore.{Alias, Key, lookup_key}
use distribute_pki.Server.Directory.Outputs.{entry_of}
use distribute_pki.Server.Cluster.{Serves, accepted-lookup}
use distribute_pki.Server.KeyNode.{KeyNode}
use distribute_pki.Server.Examples.{one_map}
use distribute_pki.Server.RequestExamples.{
  toy, toy-GobRoundTrips, create_bob, server, asked, asked_lem,
}

abbrev bob_proposal : FullPrePrepare
bob_proposal = record proposal { request = "bob" }

accepted-lookup_example :
    (alias : Alias) × (key : Key) × (entry_of create_bob ≡ some (alias, key))
    × ((handle_client_request Fixtures.toy leader "bob" (init Fixtures.toy leader)).sent
        ≡ broadcast (pre_prepare bob_proposal) ∷ (init Fixtures.toy leader).sent)
    × All {A = Voter Fixtures.toy} (Votes Fixtures.toy bob_proposal) (voter_three ∷ voter_four ∷ [])
    × (n : Node) × (handle_pre_prepare Fixtures.toy backup bob_proposal (init Fixtures.toy backup)
        ≡ some n)
    × (earlier : KeyNode) × (after : KeyNode) × Serves toy one_map
        (delivered (init Fixtures.toy backup))
        server
        earlier
    × Serves toy one_map
        (delivered (handle_commits Fixtures.toy backup (commit_by 3 ∷ commit_by 4 ∷ []) n))
        server
        after
    × (lookup_key "bob" after.store
        ≡ (if str_eq alias "bob" then (true, key) else lookup_key "bob" earlier.store))
unfolding sign_pre_prepare init is_primary leader_for
accepted-lookup_example =
    accepted-lookup toy one_map Fixtures.toy leader backup (init Fixtures.toy leader)
      (init Fixtures.toy backup) {signed = proposal.signed_message} voter_three (voter_four ∷ []) 0
      create_bob server asked server "bob" "bob" toy-GobRoundTrips (inl asked_lem) refl
      toy-SignaturesCheck (init-IsLeading "bob") init-IsFollowing refl enough_commits.0
      enough_commits.1 (voters-IsVoting "bob" refl) voters-IsPeer enough_votes
