-- ===== src/Pbft/SealedExamples.antt =====
-- A committed slot of node 2 of the toy cluster, a prepare and a client's request, and a late commit.
use distribute_pki.Base.{
  ◌≡◌, refl, ◌≢◌, true, Option, none, some, List, [], ◌∷◌, arith, nat_eq, string_eq, get, put,
}
use distribute_pki.Pbft.SlotId.{before}
use distribute_pki.Pbft.Messages.{Slot}
use distribute_pki.Pbft.Config.{leader_for}
use distribute_pki.Pbft.Signing.{prepare_signature_valid, commit_signature_valid}
use distribute_pki.Pbft.Node.{
  Node, empty_slot, ensure_mapping, init, is_primary, start_timers, get_timer, is_prepared,
  is_committed,
}
use distribute_pki.Pbft.Normal.{
  generate_digest, handle_client_request, count_prepare, record_prepare, handle_prepare,
  handle_commit, record_commit, count_commit, deliver, try_checkpoint,
}
use distribute_pki.Pbft.MainLoop.{Event, prepared, requested, handle_event, step, run}
use distribute_pki.Pbft.Commits.{handle_commits}
use distribute_pki.Pbft.Deliveries.{delivered}
use distribute_pki.Pbft.Sealed.Steps.{delivered-handle_commit_once}
use distribute_pki.Pbft.Fixtures.{toy, backup, slot_two, prepare_of, commit_of}

abbrev committed_slot : Slot
committed_slot = record empty_slot { request = some "op"; request_digest = 2; committed = true }

abbrev sealed : Node
sealed = record (init toy backup) { log = (slot_two, committed_slot) ∷ [] }

abbrev events : List Event
events = prepared (prepare_of 3) ∷ requested "other" ∷ []

abbrev or_sealed : Option Node → Node
or_sealed none = sealed
or_sealed (some n) = n

abbrev later : Node
later = or_sealed (run toy backup events sealed)

later_lem :
    (run toy backup events sealed ≡ some later)
    × (later.last_checkpoint.number ≡ (init toy backup).last_checkpoint.number)
unfolding run step handle_event init is_primary leader_for start_timers get_timer ensure_mapping
    is_prepared prepare_signature_valid generate_digest handle_client_request count_prepare
    record_prepare handle_prepare get put
later_lem = (refl, refl)

later_apart : later.last_checkpoint.number ≢ slot_two
unfolding init start_timers is_primary leader_for
later_apart e = ground (arith, later_lem.1)

delivered-handle_commit_once_example :
    delivered (handle_commit toy backup (commit_of 4) later) ≡ delivered later
unfolding init is_primary leader_for start_timers get
delivered-handle_commit_once_example =
    delivered-handle_commit_once toy backup events sealed later slot_two (commit_of 4) refl refl
      (tt, (tt, tt)) later_lem.0 refl later_apart

-- The last checkpoint stands at the slot, which is no longer in the log.
abbrev covered : Node
covered = record (init toy backup) {
  last_checkpoint = record { number = slot_two; snapshot = []; proof = [] };
}

-- Late commits for the last checkpoint's own slot are counted, and hand nil to the client.
late_commits :
    delivered (handle_commits toy backup (commit_of 1 ∷ commit_of 3 ∷ []) covered) ≡ none ∷ []
unfolding handle_commits handle_commit record_commit count_commit deliver try_checkpoint
    commit_signature_valid before ensure_mapping is_committed init is_primary leader_for
    start_timers get put
late_commits = refl
