-- ===== src/Pbft/AgreementExamples.antt =====
-- The theorems on digests and deliveries at concrete states of the toy cluster.
use distribute_pki.Base.{
  ◌≤◌, String, ◌≡◌, refl, ◌⊎◌, true, false, Option, none, some, [], ◌∷◌, arith, nat_eq, string_eq,
  length, All, Holds, get, put,
}
use distribute_pki.Pbft.SlotId.{before, slot_id_eq}
use distribute_pki.Pbft.Messages.{SignedCommit}
use distribute_pki.Pbft.Library.{Host}
use distribute_pki.Pbft.Config.{leader_for}
use distribute_pki.Pbft.Signing.{sign_prepare, pre_prepare_signature_valid, commit_signature_valid}
use distribute_pki.Pbft.Node.{
  Node, init, is_primary, start_timers, get_timer, ensure_mapping, get_timeout, get_primary,
  set_all, two_f,
}
use distribute_pki.Pbft.Normal.{
  handle_pre_prepare, generate_digest, reset_timer, in_window, is_no_op, accept_pre_prepare,
  fill_slot, place_pre_prepare, check_pre_prepare, wrong_primary,
}
use distribute_pki.Pbft.MainLoop.{pre_prepared, prepared, handle_event, step, run}
use distribute_pki.Pbft.Commits.{handle_commits}
use distribute_pki.Pbft.Votes.{slot_at}
use distribute_pki.Pbft.Deliveries.{delivered, collect, IsCommitFor, delivered-handle_commits}
use distribute_pki.Pbft.Contents.{request_in, digest_in}
use distribute_pki.Pbft.Endorsed.{IsSourced}
use distribute_pki.Pbft.Endorsed.Steps.{run-init-IsSourced}
use distribute_pki.Pbft.Agreement.{IsBackup, digest_in-agrees}
use distribute_pki.Pbft.SameRequests.{request_in-agrees}
use distribute_pki.Pbft.Fixtures.{toy, cluster, backup, slot_two, proposal, prepare_of, commit_of}

run-init-IsSourced_example :
    Holds
      (λ k. IsSourced toy backup k.log)
      (run toy backup (pre_prepared proposal ∷ prepared (prepare_of 3) ∷ []) (init toy backup))
run-init-IsSourced_example =
    run-init-IsSourced toy backup (pre_prepared proposal ∷ prepared (prepare_of 3) ∷ [])

abbrev three : Host toy
three = record {
  id = 3;
  peermap = (1, "a") ∷ (2, "b") ∷ (4, "d") ∷ [];
  cluster = cluster;
  entity = 3;
  peer_entity_map = (101, 1) ∷ (102, 2) ∷ (104, 4) ∷ [];
  peer_entities = 1 ∷ 2 ∷ 4 ∷ [];
}

two-IsBackup : IsBackup toy backup 0 1
unfolding leader_for get
two-IsBackup = record { leads = refl; met = ("a", refl); other = refl }

three-IsBackup : IsBackup toy three 0 1
unfolding leader_for get
three-IsBackup = record { leads = refl; met = ("a", refl); other = refl }

abbrev or_init : (me : Host toy) → Option Node → Node
or_init me none = init toy me
or_init me (some n) = n

abbrev two_after : Node
two_after = or_init backup (run toy backup (pre_prepared proposal ∷ []) (init toy backup))

abbrev three_after : Node
three_after = or_init three (run toy three (pre_prepared proposal ∷ []) (init toy three))

runs_lem :
    (run toy backup (pre_prepared proposal ∷ []) (init toy backup) ≡ some two_after)
    × (run toy three (pre_prepared proposal ∷ []) (init toy three) ≡ some three_after)
unfolding run step handle_event init is_primary leader_for start_timers get_timer ensure_mapping
    get_timeout get_primary set_all sign_prepare pre_prepare_signature_valid generate_digest
    reset_timer in_window is_no_op accept_pre_prepare fill_slot place_pre_prepare check_pre_prepare
    wrong_primary handle_pre_prepare get put before
runs_lem = (refl, refl)

digest_in-agrees_example :
    (digest_in slot_two two_after.log ≡ 0)
    ⊎ (digest_in slot_two three_after.log ≡ 0)
    ⊎ (digest_in slot_two two_after.log ≡ digest_in slot_two three_after.log)
digest_in-agrees_example =
    digest_in-agrees toy backup three (pre_prepared proposal ∷ []) (pre_prepared proposal ∷ [])
      two_after three_after slot_two 1 2 two-IsBackup three-IsBackup ((λ v e. refl), tt)
      ((λ v e. refl), tt) runs_lem.0 runs_lem.1

holds_op :
    (request_in slot_two two_after.log ≡ some "op")
    × (request_in slot_two three_after.log ≡ some "op")
unfolding run step handle_event init is_primary leader_for start_timers get_timer ensure_mapping
    get_timeout get_primary set_all sign_prepare pre_prepare_signature_valid generate_digest
    reset_timer in_window is_no_op accept_pre_prepare fill_slot place_pre_prepare check_pre_prepare
    wrong_primary handle_pre_prepare get put before
holds_op = (refl, refl)

request_in-agrees_example : ◌≡◌ {A = String} "op" "op"
request_in-agrees_example =
    request_in-agrees toy backup three (pre_prepared proposal ∷ []) (pre_prepared proposal ∷ [])
      two_after three_after slot_two 1 2 "op" "op" two-IsBackup three-IsBackup ((λ v e. refl), tt)
      ((λ v e. refl), tt) (tt, tt) (tt, tt) runs_lem.0 runs_lem.1
      ((λ e. ground arith), (λ e. ground arith), (λ e. refl)) holds_op.0 holds_op.1

-- Node 2 with the proposal in its log.
abbrev proposed : Node
proposed = elim (handle_pre_prepare toy backup proposal (init toy backup)) [
  | none ↦ init toy backup
  | some n ↦ n
]

commit_of-IsCommitFor :
    All {A = SignedCommit} (IsCommitFor toy backup slot_two) (commit_of 1 ∷ commit_of 3 ∷ [])
unfolding commit_signature_valid get
commit_of-IsCommitFor =
    (record { for_slot = refl; signed = refl }, (record { for_slot = refl; signed = refl }, tt))

proposed-rest :
    (proposed.view_change.in_progress ≡ false)
    × (before slot_two proposed.last_checkpoint.number ≡ false)
    × ((slot_at slot_two proposed).committed ≡ false)
    × (two_f toy backup
        ≤ length (collect (commit_of 1 ∷ commit_of 3 ∷ []) (slot_at slot_two proposed).commits))
unfolding init is_primary leader_for start_timers get_timer ensure_mapping get_timeout get_primary
    set_all sign_prepare pre_prepare_signature_valid generate_digest reset_timer in_window is_no_op
    accept_pre_prepare fill_slot place_pre_prepare check_pre_prepare wrong_primary
    handle_pre_prepare get put before
proposed-rest = (refl, refl, refl, omega arith)

delivered-handle_commits_example :
    (delivered (handle_commits toy backup (commit_of 1 ∷ commit_of 3 ∷ []) proposed)
      ≡ (slot_at slot_two proposed).request ∷ delivered proposed)
    × ((slot_at slot_two
          (handle_commits toy backup (commit_of 1 ∷ commit_of 3 ∷ []) proposed)).committed
        ≡ true)
delivered-handle_commits_example =
    delivered-handle_commits toy backup slot_two (commit_of 1) (commit_of 3 ∷ []) proposed
      proposed-rest.0 proposed-rest.1 proposed-rest.2 commit_of-IsCommitFor proposed-rest.3
