-- ===== src/Pbft/Runs.antt =====
-- Tests: a request goes through the three phases at a backup.
use distribute_pki.Base.{◌≡◌, refl, Option, none, some, [], ◌∷◌, nat_eq, string_eq, get, put}
use distribute_pki.Pbft.SlotId.{before}
use distribute_pki.Pbft.Node.{
  Node, Effect, init, is_primary, start_timers, get_timer, ensure_mapping, is_prepared,
  is_committed, get_timeout, get_primary, set_all, committed,
}
use distribute_pki.Pbft.Config.{leader_for}
use distribute_pki.Pbft.Signing.{
  sign_prepare, sign_commit, prepare_signature_valid, commit_signature_valid,
  pre_prepare_signature_valid,
}
use distribute_pki.Pbft.Normal.{
  try_checkpoint, deliver, count_commit, record_commit, handle_commit, send_commit, count_prepare,
  record_prepare, handle_prepare, generate_digest, reset_timer, in_window, is_no_op,
  accept_pre_prepare, fill_slot, place_pre_prepare, check_pre_prepare, wrong_primary,
  handle_pre_prepare,
}
use distribute_pki.Pbft.MainLoop.{Event, pre_prepared, prepared, handle_event, step, run}
use distribute_pki.Pbft.MainLoop
use distribute_pki.Pbft.Fixtures.{toy, backup, proposal, prepare_of, commit_of}

abbrev first_sent : Option Node → Option Effect
first_sent none = none
first_sent (some n) = elim n.sent [ [] ↦ none | e ∷ rest ↦ some e ]

three_phases :
    first_sent (
      run toy backup
        (pre_prepared proposal
          ∷ prepared (prepare_of 3)
          ∷ MainLoop.Event.committed (commit_of 1)
          ∷ [])
        (init toy backup))
    ≡ some (committed (some "op"))
unfolding run step handle_event init is_primary leader_for start_timers get_timer ensure_mapping
    is_prepared is_committed get_timeout get_primary set_all sign_prepare sign_commit
    prepare_signature_valid commit_signature_valid pre_prepare_signature_valid try_checkpoint
    deliver count_commit record_commit handle_commit send_commit count_prepare record_prepare
    handle_prepare generate_digest reset_timer in_window is_no_op accept_pre_prepare fill_slot
    place_pre_prepare check_pre_prepare wrong_primary handle_pre_prepare get put before
three_phases = refl
