-- ===== src/Pbft/VoteExamples.antt =====
-- The theorems on votes and view changes at concrete states of the toy cluster.
use distribute_pki.Base.{
  ◌≤◌, ◌≡◌, refl, ◌⊎◌, true, false, ◌||◌, Option, none, some, [], ◌∷◌, nat_eq, string_eq, All, Map,
  get, put,
}
use distribute_pki.Pbft.Generation.{
  slot_in, surveyed, in_bounds, HasRequest, generate_preprepares-HasRequest,
}
use distribute_pki.Pbft.Examples.{started, proposed}
use distribute_pki.Pbft.Surveys.{Covers, survey-Covers}
use mathlib.Core.Logic.Or
use mathlib.Core.List.{mem-cons, mem-cons_self}
use distribute_pki.Pbft.Votes.{IsPeer, slot_at, handle_prepare-counts}
use distribute_pki.Pbft.SlotId.{SlotId, before, slot_id_eq}
use distribute_pki.Pbft.Messages.{
  FullPrePrepare, NodeId, SignedViewChange, SignedPrepare, SignedCommit,
}
use distribute_pki.Pbft.Config.{leader_for}
use distribute_pki.Pbft.Signing.{sign_pre_prepare, sign_prepare, pre_prepare_signature_valid}
use distribute_pki.Pbft.Node.{
  Node, is_prepared, init, is_primary, start_timers, get_timer, ensure_mapping, get_timeout,
  get_primary, set_all,
}
use distribute_pki.Pbft.Normal.{
  store_pre_prepare, handle_prepare, handle_pre_prepare, generate_digest, reset_timer, in_window,
  is_no_op, accept_pre_prepare, fill_slot, place_pre_prepare, check_pre_prepare, wrong_primary,
}
use distribute_pki.Pbft.NewViews.{
  generate_preprepares, generate_from, survey_proofs, keep_highest, request_for, raise_issued,
  survey, initial_survey,
}
use distribute_pki.Pbft.Fixtures.{toy-SignaturesCheck, toy, backup, slot_two, proposal}

three-IsPeer : IsPeer toy backup 3 3
unfolding get
three-IsPeer = record { in_ring = mem-cons.1 (Or.inr mem-cons_self); named = refl }

abbrev prepare_three : SignedPrepare
prepare_three = record {
  message = record { number = slot_two; request_digest = 2; node = 3 };
  signature = 3 ∷ 2 ∷ 3 ∷ [];
}

abbrev commit_three : SignedCommit
commit_three = record {
  message = record { number = slot_two; request_digest = 2; node = 3 };
  signature = 3 ∷ 2 ∷ 3 ∷ [];
}

handle_prepare-counts_example :
    ((slot_at slot_two (handle_prepare toy backup prepare_three proposed)).prepares
      ≡ put 3 prepare_three (slot_at slot_two proposed).prepares)
    × ((slot_at slot_two (handle_prepare toy backup prepare_three proposed)).prepared ≡ (
        (slot_at slot_two proposed).prepared
        || is_prepared toy backup
            (slot_at slot_two (handle_prepare toy backup prepare_three proposed))))
unfolding init is_primary leader_for start_timers get_timer ensure_mapping get_timeout get_primary
    set_all sign_prepare pre_prepare_signature_valid generate_digest reset_timer in_window is_no_op
    accept_pre_prepare fill_slot place_pre_prepare check_pre_prepare wrong_primary
    handle_pre_prepare get put before
handle_prepare-counts_example =
    handle_prepare-counts toy backup prepare_three.message 3 proposed {s = prepare_three}
      toy-SignaturesCheck three-IsPeer refl refl

-- A view change of node 3 for view 1, with a proof for slot 2.
abbrev change_three : SignedViewChange
change_three = record {
  message = record {
    view_number = 1;
    checkpoint = record { view_number = 0; seq_number = 0 };
    checkpoint_proof = [];
    proofs =
        (
          slot_two,
          record {
            number = slot_two;
            request = "op";
            preprepare = proposal.signed_message;
            request_digest = 2;
            prepares = [];
          },
        )
        ∷ [];
    node = 3;
  };
  signature = [];
}

survey-Covers_example :
    All {A = NodeId × SignedViewChange}
      (λ m.
        (m.1.message.checkpoint.seq_number
          ≤ (survey ((3, change_three) ∷ []) (initial_survey started)).min_s)
        × All
            (λ e. Covers (survey ((3, change_three) ∷ []) (initial_survey started)) e.0)
            m.1.message.proofs)
      ((3, change_three) ∷ [])
survey-Covers_example = survey-Covers ((3, change_three) ∷ []) (initial_survey started)

-- The leader of view 1 with the view change of node 3.
abbrev changing : Node
changing = record started {
  view_change = record started.view_change { messages = (3, change_three) ∷ [] };
}

abbrev or_none : Option (Map SlotId FullPrePrepare × Node) → Map SlotId FullPrePrepare × Node
or_none none = ([], started)
or_none (some r) = r

abbrev built : Map SlotId FullPrePrepare × Node
built = or_none (generate_preprepares toy backup 1 changing)

generate_preprepares-HasRequest_example :
    ((in_bounds 2 (surveyed changing) ≡ true) × HasRequest toy backup 1 changing built.0 2)
    ⊎ ((in_bounds 2 (surveyed changing) ≡ false) × (get (slot_in 1 2) built.0 ≡ none))
unfolding init start_timers is_primary leader_for generate_preprepares generate_from survey
    survey_proofs keep_highest request_for sign_pre_prepare store_pre_prepare raise_issued get put
generate_preprepares-HasRequest_example =
    generate_preprepares-HasRequest toy backup 1 changing built.1 built.0 2 refl
