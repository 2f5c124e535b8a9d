-- ===== src/Pbft/AnswerExamples.antt =====
-- The theorems on calls and answers at concrete states of the toy cluster.
use distribute_pki.Base.{
  ◌≤◌, String, ◌≡◌, refl, false, some, [], ◌∷◌, arith, ◌==◌, if◌then◌else◌, nat_eq, string_eq,
  length, All, get, put,
}
use mathlib.Core.List.{mem-cons_self}
use distribute_pki.Pbft.Messages.{SignedPpResponse, SignedCommit}
use distribute_pki.Pbft.Config.{leader_for}
use distribute_pki.Pbft.Signing.{get_signature}
use distribute_pki.Pbft.Node.{
  two_f, Node, broadcast, pre_prepare, set_all, init, is_primary, start_timers,
}
use distribute_pki.Pbft.Heartbeat.{peer_sequence, heartbeat_answered}
use distribute_pki.Pbft.Rpc.{answer}
use distribute_pki.Pbft.Votes.{IsPeer, slot_at}
use distribute_pki.Pbft.Answers.{heartbeat_answered-answer}
use distribute_pki.Pbft.SlotId.{before, slot_id_eq}
use distribute_pki.Pbft.Commits.{handle_commits}
use distribute_pki.Pbft.Deliveries.{delivered, collect, IsCommitFor}
use distribute_pki.Pbft.Completion.{delivered-request}
use distribute_pki.Pbft.Placement.{IsLeading, IsFollowing}
use distribute_pki.Pbft.Signing.{sign_pre_prepare, commit_signature_valid}
use distribute_pki.Pbft.Normal.{handle_client_request, handle_pre_prepare, issued_id}
use distribute_pki.Pbft.Fixtures.{toy, toy-SignaturesCheck, backup, leader, commit_of, proposal}

one-IsPeer : IsPeer toy backup 1 1
unfolding get
one-IsPeer = record { in_ring = mem-cons_self; named = refl }

two-IsPeer : IsPeer toy leader 2 2
unfolding get
two-IsPeer = record { in_ring = mem-cons_self; named = refl }

abbrev answer_two : SignedPpResponse
answer_two = record { message = record { seq_number = 1 }; signature = 2 ∷ 1 ∷ [] }

heartbeat_answered-answer_example :
    peer_sequence 2 (heartbeat_answered toy leader 2 answer_two (init toy leader))
    ≡ (if 2 == 2 then (init toy backup).sequence_number else peer_sequence 2 (init toy leader))
unfolding answer get_signature init start_timers is_primary leader_for
heartbeat_answered-answer_example =
    heartbeat_answered-answer toy leader backup (init toy backup) (init toy leader) 2
      {response = answer_two} toy-SignaturesCheck two-IsPeer refl

pub init-IsLeading : (request : String) → IsLeading toy leader request (init toy leader)
unfolding init is_primary leader_for start_timers get
init-IsLeading request = record { primary = refl; idle = refl; fresh = refl }

pub init-IsFollowing : IsFollowing toy leader backup (init toy leader) (init toy backup)
unfolding init is_primary leader_for start_timers get set_all
init-IsFollowing = record {
  same_cluster = refl;
  same_view = refl;
  another = refl;
  known = one-IsPeer;
  hostname = "a";
  met = refl;
  idle = refl;
  timer = λ e. ground arith;
  empty = refl;
  above = omega arith;
  below = omega arith;
}

pub commits-IsCommitFor :
    All {A = SignedCommit}
      (IsCommitFor toy backup (issued_id toy leader (init toy leader)))
      (commit_of 1 ∷ commit_of 3 ∷ [])
unfolding commit_signature_valid get init is_primary leader_for start_timers
commits-IsCommitFor =
    (record { for_slot = refl; signed = refl }, (record { for_slot = refl; signed = refl }, tt))

pub enough_commits :
    (before (issued_id toy leader (init toy leader)) (init toy backup).last_checkpoint.number
      ≡ false)
    × ((slot_at (issued_id toy leader (init toy leader)) (init toy backup)).committed ≡ false)
    × (two_f toy backup
        ≤ length (
            collect
              (commit_of 1 ∷ commit_of 3 ∷ [])
              (slot_at (issued_id toy leader (init toy leader)) (init toy backup)).commits))
unfolding before get init is_primary leader_for start_timers put
enough_commits = (refl, refl, omega arith)

delivered-request_example :
    ((handle_client_request toy leader "op" (init toy leader)).sent
      ≡ broadcast (pre_prepare proposal) ∷ (init toy leader).sent)
    × (k : Node) × (handle_pre_prepare toy backup proposal (init toy backup) ≡ some k)
    × (delivered (handle_commits toy backup (commit_of 1 ∷ commit_of 3 ∷ []) k)
        ≡ some "op" ∷ delivered (init toy backup))
unfolding sign_pre_prepare init is_primary leader_for
delivered-request_example =
    delivered-request toy leader backup "op" (init toy leader) (init toy backup)
      {signed = proposal.signed_message} (commit_of 1) (commit_of 3 ∷ []) toy-SignaturesCheck
      (init-IsLeading "op") init-IsFollowing refl enough_commits.0 enough_commits.1
      commits-IsCommitFor enough_commits.2
