-- ===== src/Pbft/PhaseExamples.antt =====
-- The three phases in the toy cluster: nodes 3 and 4 vote, and node 2 hands the request over.
use distribute_pki.Base.{
  ◌≤◌, String, ◌≡◌, refl, some, [], ◌∷◌, map, arith, nat_eq, string_eq, length, All, get, put,
}
use mathlib.Core.List.{mem-cons_self, mem-cons_of_mem}
use distribute_pki.Pbft.Messages.{NodeId, SignedPrepare, SignedCommit}
use distribute_pki.Pbft.Library.{Host}
use distribute_pki.Pbft.Config.{leader_for}
use distribute_pki.Pbft.Signing.{
  sign_pre_prepare, sign_prepare, sign_commit, prepare_signature_valid,
}
use distribute_pki.Pbft.Node.{
  Node, two_f, broadcast, pre_prepare, set_all, init, is_primary, start_timers,
}
use distribute_pki.Pbft.Normal.{handle_client_request, handle_pre_prepare, issued_id}
use distribute_pki.Pbft.Commits.{handle_commits}
use distribute_pki.Pbft.Votes.{IsPeer, slot_at}
use distribute_pki.Pbft.Deliveries.{delivered, collect}
use distribute_pki.Pbft.Placement.{IsFollowing}
use distribute_pki.Pbft.Voting.{Voter, IsVoting, Votes}
use distribute_pki.Pbft.Phases.{vote_of, request-delivered}
use distribute_pki.Pbft.Fixtures.{
  toy, toy-SignaturesCheck, cluster, backup, leader, proposal, prepare_of, commit_of,
}
use distribute_pki.Pbft.AnswerExamples.{init-IsLeading, init-IsFollowing, enough_commits}

abbrev pub three : Host toy
three = record {
  id = 3;
  peermap = (1, "a") ∷ (2, "b") ∷ (4, "d") ∷ [];
  cluster = cluster;
  entity = 3;
  peer_entity_map = (101, 1) ∷ (102, 2) ∷ (104, 4) ∷ [];
  peer_entities = 1 ∷ 2 ∷ 4 ∷ [];
}

abbrev pub four : Host toy
four = record {
  id = 4;
  peermap = (1, "a") ∷ (2, "b") ∷ (3, "c") ∷ [];
  cluster = cluster;
  entity = 4;
  peer_entity_map = (101, 1) ∷ (102, 2) ∷ (103, 3) ∷ [];
  peer_entities = 1 ∷ 2 ∷ 3 ∷ [];
}

-- What node i signs: its text is the slot and the node.
abbrev pub prepare_by : NodeId → SignedPrepare
prepare_by i = record (prepare_of i) { signature = i ∷ 2 ∷ i ∷ [] }

abbrev pub commit_by : NodeId → SignedCommit
commit_by i = record (commit_of i) { signature = i ∷ 2 ∷ i ∷ [] }

abbrev pub voter_three : Voter toy
voter_three = record {
  host = three;
  state = init toy three;
  own = prepare_by 3;
  first = prepare_by 4;
  others = prepare_by 2 ∷ [];
  vote = commit_by 3;
}

abbrev pub voter_four : Voter toy
voter_four = record {
  host = four;
  state = init toy four;
  own = prepare_by 4;
  first = prepare_by 2;
  others = [];
  vote = commit_by 4;
}

three-IsFollowing : IsFollowing toy leader three (init toy leader) (init toy three)
unfolding init is_primary leader_for start_timers get set_all
three-IsFollowing = record {
  same_cluster = refl;
  same_view = refl;
  another = refl;
  known = record { in_ring = mem-cons_self; named = refl };
  hostname = "a";
  met = refl;
  idle = refl;
  timer = λ e. ground arith;
  empty = refl;
  above = omega arith;
  below = omega arith;
}

four-IsFollowing : IsFollowing toy leader four (init toy leader) (init toy four)
unfolding init is_primary leader_for start_timers get set_all
four-IsFollowing = record {
  same_cluster = refl;
  same_view = refl;
  another = refl;
  known = record { in_ring = mem-cons_self; named = refl };
  hostname = "a";
  met = refl;
  idle = refl;
  timer = λ e. ground arith;
  empty = refl;
  above = omega arith;
  below = omega arith;
}

three_knows_four : IsPeer toy three 4 4
unfolding get
three_knows_four = record {
  in_ring = mem-cons_of_mem _ (mem-cons_of_mem _ mem-cons_self);
  named = refl;
}

three_knows_two : IsPeer toy three 2 2
unfolding get
three_knows_two = record { in_ring = mem-cons_of_mem _ mem-cons_self; named = refl }

four_knows_two : IsPeer toy four 2 2
unfolding get
four_knows_two = record { in_ring = mem-cons_of_mem _ mem-cons_self; named = refl }

pub voters-IsVoting :
    (request : String)
    → toy.sha256 request ≡ 2
    → All {A = Voter toy}
        (IsVoting toy leader request (init toy leader))
        (voter_three ∷ voter_four ∷ [])
unfolding sign_prepare sign_commit prepare_signature_valid init is_primary leader_for start_timers
    get put
voters-IsVoting request h = (
  record {
    follows = three-IsFollowing;
    own_signed = ground (arith, h);
    vote_signed = ground (arith, h);
    come = (
      (four, three_knows_four, ground (arith, h)),
      ((backup, three_knows_two, ground (arith, h)), tt),
    );
    enough = omega arith;
  },
  (
    record {
      follows = four-IsFollowing;
      own_signed = ground (arith, h);
      vote_signed = ground (arith, h);
      come = ((backup, four_knows_two, ground (arith, h)), tt);
      enough = omega arith;
    },
    tt,
  ),
)

pub voters-IsPeer :
    All {A = Voter toy}
      (λ v. IsPeer toy backup v.host.entity v.host.id)
      (voter_three ∷ voter_four ∷ [])
unfolding get
voters-IsPeer = (
  record { in_ring = mem-cons_of_mem _ mem-cons_self; named = refl },
  (record { in_ring = mem-cons_of_mem _ (mem-cons_of_mem _ mem-cons_self); named = refl }, tt),
)

pub enough_votes :
    two_f toy backup
    ≤ length (
        collect
          (map (vote_of toy) (voter_three ∷ voter_four ∷ []))
          (slot_at (issued_id toy leader (init toy leader)) (init toy backup)).commits)
unfolding init is_primary leader_for start_timers get put
enough_votes = omega arith

request-delivered_example :
    ((handle_client_request toy leader "op" (init toy leader)).sent
      ≡ broadcast (pre_prepare proposal) ∷ (init toy leader).sent)
    × All {A = Voter toy} (Votes toy proposal) (voter_three ∷ voter_four ∷ [])
    × (k : Node) × (handle_pre_prepare toy backup proposal (init toy backup) ≡ some k)
    × (delivered (handle_commits toy backup (commit_by 3 ∷ commit_by 4 ∷ []) k)
        ≡ some "op" ∷ delivered (init toy backup))
unfolding sign_pre_prepare init is_primary leader_for
request-delivered_example =
    request-delivered toy leader backup "op" (init toy leader) (init toy backup)
      {signed = proposal.signed_message} voter_three (voter_four ∷ []) toy-SignaturesCheck
      (init-IsLeading "op") init-IsFollowing refl enough_commits.0 enough_commits.1
      (voters-IsVoting "op" refl) voters-IsPeer enough_votes
