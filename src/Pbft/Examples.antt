-- ===== src/Pbft/Examples.antt =====
-- The theorems on the protocol at concrete states of the toy cluster.
use distribute_pki.Base.{
  ◌+◌, ◌≤◌, ◌≡◌, refl, ◌≢◌, ◌↔◌, ◌⊎◌, true, false, not, ◌&&◌, Option, none, some, [], ◌∷◌,
  if◌then◌else◌, is_some, nat_eq, string_eq, length, Holds, get, put,
}
use distribute_pki.Pbft.SlotId.{before, before_or_equal, slot_id_eq}
use distribute_pki.Pbft.Messages.{
  SignedPrePrepare, SignedCheckpoint, SignedCheckpointProof, CheckpointProof, Slot,
}
use distribute_pki.Pbft.Config.{leader_for}
use distribute_pki.Pbft.Signing.{
  sign_pre_prepare, sign_prepare, sign_checkpoint_proof, pre_prepare_signature_valid,
}
use distribute_pki.Pbft.Node.{
  Node, init, is_primary, start_timers, get_timer, ensure_mapping, get_timeout, get_primary,
  set_all, two_f,
}
use distribute_pki.Pbft.Normal.{
  handle_pre_prepare, generate_digest, reset_timer, in_window, is_no_op, accept_pre_prepare,
  fill_slot, place_pre_prepare, check_pre_prepare, wrong_primary,
}
use distribute_pki.Pbft.Checkpoints.{checkpointed, with_vote, handle_checkpoint_no_validation}
use distribute_pki.Pbft.ViewChanges.{start_view_change}
use distribute_pki.Pbft.Heartbeat.{heartbeat_message, no_op}
use distribute_pki.Pbft.NewViews.{has_request}
use distribute_pki.Pbft.MainLoop.{
  Event, pre_prepared, prepared, new_viewed, request_timed_out, handle_event, step, run,
}
use distribute_pki.Pbft.MainLoop
use distribute_pki.Pbft.Slots.{IsLog}
use distribute_pki.Pbft.Slots.Steps.{run-init-IsLog}
use distribute_pki.Pbft.Views.{IsReady}
use distribute_pki.Pbft.Views.Steps.{floor, step-Ready, init-IsReady}
use distribute_pki.Pbft.Crashes.{start_view_change-some, heartbeat_message_crash}
use distribute_pki.Pbft.Proposals.{IsChecked, filled-IsChecked, handle_pre_prepare-get}
use distribute_pki.Pbft.Commits.{
  deliveries, has_committed, handle_commits, deliveries-handle_commits,
}
use distribute_pki.Pbft.Stability.{checkpointed-gets, handle_checkpoint_quorum, is_taken}
use distribute_pki.Pbft.Ordering.{before_or_equal_lem}
use distribute_pki.Pbft.Fixtures.{toy, backup, leader, slot_two, proposal, prepare_of, commit_of}

abbrev or_else : Node → Option Node → Node
or_else n none = n
or_else n (some k) = k

abbrev pub started : Node
started = init toy backup

-- The backup after the leader's proposal.
abbrev pub proposed : Node
proposed = or_else started (handle_pre_prepare toy backup proposal started)

proposed_lem : handle_pre_prepare toy backup proposal started ≡ some proposed
unfolding init is_primary leader_for start_timers get_timer ensure_mapping get_timeout get_primary
    set_all sign_prepare pre_prepare_signature_valid generate_digest reset_timer in_window is_no_op
    accept_pre_prepare fill_slot place_pre_prepare check_pre_prepare wrong_primary
    handle_pre_prepare get put before
proposed_lem = refl

no_request : has_request slot_two started ≡ false
unfolding has_request init is_primary leader_for start_timers get
no_request = refl

a_request : has_request slot_two proposed ≡ true
unfolding has_request init is_primary leader_for start_timers get_timer ensure_mapping get_timeout
    get_primary set_all sign_prepare pre_prepare_signature_valid generate_digest reset_timer
    in_window is_no_op accept_pre_prepare fill_slot place_pre_prepare check_pre_prepare
    wrong_primary handle_pre_prepare get put before
a_request = refl

filled-IsChecked_example : IsChecked toy backup proposal started
filled-IsChecked_example =
    filled-IsChecked toy backup proposal started proposed proposed_lem no_request a_request

run-init-IsLog_example :
    Holds
      (λ k. IsLog toy backup k.log)
      (run toy backup
        (pre_prepared proposal
          ∷ prepared (prepare_of 3)
          ∷ MainLoop.Event.committed (commit_of 1)
          ∷ [])
        (init toy backup))
run-init-IsLog_example =
    run-init-IsLog toy backup (
      pre_prepared proposal ∷ prepared (prepare_of 3) ∷ MainLoop.Event.committed (commit_of 1) ∷ [])

step-Ready_example :
    Holds
      (λ k. IsReady toy backup k × (floor request_timed_out started ≤ k.view_number))
      (step toy backup request_timed_out started)
step-Ready_example = step-Ready toy backup request_timed_out started (init-IsReady toy backup)

before_or_equal_lem_example :
    (before_or_equal slot_two slot_two ≡ not (before slot_two slot_two))
    × ((before_or_equal slot_two slot_two ≡ true)
        ↔ ((before slot_two slot_two ≡ true) ⊎ (slot_two ≡ slot_two)))
before_or_equal_lem_example = before_or_equal_lem slot_two slot_two

started-IsLog : IsLog toy backup started.log
unfolding init start_timers is_primary leader_for
started-IsLog = tt

start_view_change-some_example : is_some (start_view_change toy backup 1 started) ≡ true
start_view_change-some_example = start_view_change-some toy backup 1 started started-IsLog

abbrev signed_no_op : SignedPrePrepare
signed_no_op = record { message = no_op; signature = 1 ∷ 0 ∷ [] }

abbrev signed_proof : SignedCheckpointProof
signed_proof = record {
  message = record { proof = (init toy leader).last_checkpoint; node = 1 };
  signature = 1 ∷ 1 ∷ [];
}

-- The leader, which starts at sequence number 1, with a peer that says it is at 5.
heartbeat_message_crash_example : (heartbeat_message toy leader 5 (init toy leader) ≡ none) ↔ (
    ((init toy leader).sequence_number ≢ 5)
    × ((init toy leader).last_checkpoint.number.seq_number ≤ 5)
    × (has_request
          (record { view_number = (init toy leader).view_number; seq_number = 5 + 1 })
          (init toy leader)
        ≡ false))
unfolding sign_pre_prepare sign_checkpoint_proof init is_primary leader_for start_timers
heartbeat_message_crash_example =
    heartbeat_message_crash toy leader 5 (init toy leader) {s = signed_no_op} {t = signed_proof} tt
      refl refl

abbrev proposed_slot : Slot
proposed_slot = record {
  request = some "op";
  request_digest = 2;
  preprepare = some proposal.signed_message;
  prepares =
      (
        2,
        record {
          message = record { number = slot_two; request_digest = 2; node = 2 };
          signature = 2 ∷ 2 ∷ 2 ∷ [];
        },
      )
      ∷ [];
  commits = [];
  prepared = false;
  committed = false;
}

handle_pre_prepare-get_example :
    get slot_two (or_else proposed (handle_pre_prepare toy backup proposal proposed)).log
    ≡ some (proposed_slot)
unfolding init is_primary leader_for start_timers get_timer ensure_mapping get_timeout get_primary
    set_all sign_prepare pre_prepare_signature_valid generate_digest reset_timer in_window is_no_op
    accept_pre_prepare fill_slot place_pre_prepare check_pre_prepare wrong_primary
    handle_pre_prepare get put before
handle_pre_prepare-get_example =
    handle_pre_prepare-get toy backup proposal proposed
      (or_else proposed (handle_pre_prepare toy backup proposal proposed)) slot_two proposed_slot
      refl refl refl

deliveries-handle_commits_example :
    (deliveries started
      ≤ deliveries
          (handle_commits toy backup (commit_of 1 ∷ commit_of 3 ∷ commit_of 1 ∷ []) started))
    × (deliveries (handle_commits toy backup (commit_of 1 ∷ commit_of 3 ∷ commit_of 1 ∷ []) started)
        ≤ deliveries started + (if has_committed slot_two started then 0 else 1))
deliveries-handle_commits_example =
    deliveries-handle_commits toy backup slot_two (commit_of 1 ∷ commit_of 3 ∷ commit_of 1 ∷ [])
      started (refl, (refl, (refl, tt)))

abbrev vote : SignedCheckpoint
vote = record {
  message = record { number = slot_two; snapshot = []; node = 3 };
  signature = 3 ∷ [];
}

abbrev stable : CheckpointProof
stable = record { number = slot_two; snapshot = []; proof = (3, vote) ∷ [] }

checkpointed-gets_example :
    (get slot_two (checkpointed stable proposed).pending_checkpoints ≡ (
      if is_taken stable proposed && before_or_equal slot_two stable.number
      then none
      else get slot_two proposed.pending_checkpoints))
    × (get slot_two (checkpointed stable proposed).log ≡ (
        if is_taken stable proposed
          && (is_some (get slot_two proposed.pending_checkpoints)
              && before_or_equal slot_two stable.number)
        then none
        else get slot_two proposed.log))
    × ((checkpointed stable proposed).last_checkpoint
        ≡ (if is_taken stable proposed then stable else proposed.last_checkpoint))
checkpointed-gets_example = checkpointed-gets stable proposed slot_two

handle_checkpoint_quorum_example :
    ((handle_checkpoint_no_validation toy backup vote started).last_checkpoint
      ≡ started.last_checkpoint)
    ⊎ ((two_f toy backup + 1
          ≤ length (handle_checkpoint_no_validation toy backup vote started).last_checkpoint.proof)
        × ((handle_checkpoint_no_validation toy backup vote started).last_checkpoint
            ≡ with_vote toy backup vote started)
        × (before_or_equal vote.message.number started.last_checkpoint.number ≡ false))
handle_checkpoint_quorum_example = handle_checkpoint_quorum toy backup vote started
