-- ===== src/Pbft/AliasExamples.antt =====
-- A new view whose pre-prepares share the loop variable, at node 2 of the toy cluster.
use distribute_pki.Base.{
  ℕ, String, ◌≡◌, refl, ◌⊎◌, false, none, some, [], ◌∷◌, nat_eq, string_eq, get, put,
}
use distribute_pki.Pbft.SlotId.{SlotId, before, slot_id_eq}
use distribute_pki.Pbft.Messages.{FullPrePrepare, SignedNewView}
use distribute_pki.Pbft.Config.{leader_for}
use distribute_pki.Pbft.Signing.{sign_prepare, pre_prepare_signature_valid}
use distribute_pki.Pbft.Node.{
  Node, init, is_primary, start_timers, get_timer, ensure_mapping, get_timeout, get_primary,
  set_all,
}
use distribute_pki.Pbft.Normal.{
  handle_pre_prepare, generate_digest, reset_timer, in_window, is_no_op, accept_pre_prepare,
  fill_slot, place_pre_prepare, check_pre_prepare, wrong_primary,
}
use distribute_pki.Pbft.ViewChanges.{enter_new_view}
use distribute_pki.Pbft.NewViews.{
  has_request, handle_new_view, accept_new_view, process_preprepares, process_preprepare,
  current_view, finish_loop, last_value, note_filled, show_last, show_in_slot,
}
use distribute_pki.Pbft.Shown.{request_at}
use distribute_pki.Pbft.Aliases.{handle_new_view-shows_last}
use distribute_pki.Pbft.Fixtures.{toy, backup}

abbrev carried : ℕ → String → FullPrePrepare
carried number request = record {
  signed_message = record {
    message = record {
      number = record { view_number = 2; seq_number = number };
      request_digest = 2;
    };
    signature = 3 ∷ number ∷ [];
  };
  request = request;
}

-- The leader of view 2, which is node 3, carries two requests over.
abbrev entering : SignedNewView
entering = record {
  message = record {
    view_number = 2;
    view_changes = [];
    preprepares =
        ((carried 2 "op").signed_message.message.number, carried 2 "op")
        ∷ ((carried 3 "oq").signed_message.message.number, carried 3 "oq")
        ∷ [];
    node = 3;
  };
  signature = [];
}

abbrev slot_carried : SlotId
slot_carried = record { view_number = 2; seq_number = 2 }

abbrev entered : Node
entered = elim (handle_new_view toy backup entering (init toy backup)) [
  | none ↦ init toy backup
  | some n ↦ n
]

entered_lem :
    (handle_new_view toy backup entering (init toy backup) ≡ some entered)
    × (last_value entering.message.preprepares ≡ some (carried 3 "oq"))
    × (has_request slot_carried (init toy backup) ≡ false)
    × (request_at slot_carried entered ≡ some "oq")
unfolding init is_primary leader_for start_timers get_timer ensure_mapping get_timeout get_primary
    set_all sign_prepare pre_prepare_signature_valid generate_digest reset_timer in_window is_no_op
    accept_pre_prepare fill_slot place_pre_prepare check_pre_prepare wrong_primary
    handle_pre_prepare get put before enter_new_view has_request handle_new_view accept_new_view
    process_preprepares process_preprepare current_view finish_loop last_value note_filled show_last
    show_in_slot
entered_lem = (refl, refl, refl, refl)

handle_new_view-shows_last_example :
    (request_at slot_carried entered ≡ none) ⊎ (request_at slot_carried entered ≡ some "oq")
handle_new_view-shows_last_example =
    handle_new_view-shows_last toy backup entering (init toy backup) entered slot_carried
      {last = carried 3 "oq"} entered_lem.0 entered_lem.1 entered_lem.2
