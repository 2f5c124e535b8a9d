-- ===== src/Pbft/NewViews/Leading.antt =====
-- `handleViewChange` and the second loop of `generatePrepreparesForNewView` of
-- src/pbft/view_change.go. `none` ends the process.
use distribute_pki.Base.{
  ℕ, zero, suc, ◌+◌, ◌-◌, ◌*◌, ◌/◌, Bool, true, false, not, ◌&&◌, Option, none, some, [], ◌∷◌, ltb,
  leb, ◌==◌, if◌then◌else◌, nat_eq, string_eq, length, count, ok, err, and_then, Map, put,
}
use distribute_pki.Pbft.SlotId.{SlotId, slot_id_eq}
use distribute_pki.Pbft.Messages.{NodeId, FullPrePrepare, SignedViewChange}
use distribute_pki.Pbft.Library.{Library, Host}
use distribute_pki.Pbft.Config.{leader_for}
use distribute_pki.Pbft.Signing.{sign_pre_prepare, view_change_signature_valid}
use distribute_pki.Pbft.Node.{Node, set_all}
use distribute_pki.Pbft.Normal.{store_pre_prepare}
use distribute_pki.Pbft.ViewChanges.{start_view_change, enter_new_view}
use distribute_pki.Pbft.Heartbeat.{send_heartbeat}
use distribute_pki.Pbft.NewViews.Surveying.{
  Survey, survey, request_for, raise_issued, initial_survey,
}

-- The view whose view changes count as higher: the one being entered, or the current one.
unfoldable pub current_view : Node → ℕ
current_view n = if n.view_change.in_progress then n.view_change.view_number else n.view_number

unfoldable pub higher_than : ℕ → Map NodeId SignedViewChange → ℕ
higher_than view = count (λ m. ltb view m.1.message.view_number)

unfoldable pub votes_for : ℕ → Map NodeId SignedViewChange → ℕ
votes_for view = count (λ m. m.1.message.view_number == view)

-- The smallest view above the current one that a message asks for, and no more than `lowest`.
unfoldable pub lowest_new_view : ℕ → ℕ → Map NodeId SignedViewChange → ℕ
lowest_new_view current lowest [] = lowest
lowest_new_view current lowest ((node, m) ∷ messages) =
    lowest_new_view current
      (if ltb current m.message.view_number && ltb m.message.view_number lowest
        then m.message.view_number
        else lowest)
      messages

-- The message becomes the latest one of its node.
unfoldable pub store_view_change : SignedViewChange → Node → Node
store_view_change message n = record n {
  view_change = record n.view_change {
    messages = put message.message.node message n.view_change.messages;
  };
}

module _ (lib : Library) (me : Host lib) where
  -- The second loop: so many sequence numbers from `s` on.
  unfoldable pub generate_from :
      ℕ
      → ℕ
      → ℕ
      → Survey
      → Map SlotId FullPrePrepare
      → Node
      → Option (Map SlotId FullPrePrepare × Node)
  generate_from zero s view v made n = some (made, n)
  generate_from (suc rounds) s view v made n =
      let id : SlotId = record { view_number = view; seq_number = s } in
      let (request, digest) = request_for lib s v in
      elim (sign_pre_prepare lib (record { number = id; request_digest = digest }) me.entity) [
        | err e ↦ none
        | ok signed ↦
            generate_from rounds (s + 1) view v
              (put id (record { signed_message = signed; request = request }) made)
              (store_pre_prepare id request digest signed n)
      ]

  unfoldable pub generate_preprepares : ℕ → Node → Option (Map SlotId FullPrePrepare × Node)
  generate_preprepares view n =
      let v : Survey = survey n.view_change.messages (initial_survey n) in
      let rounds : ℕ = (if ltb v.min_s v.max_s then v.max_s + 1 - v.min_s else 0) in
      and_then (generate_from rounds v.min_s view v [] n) λ r. some (r.0, raise_issued v.max_s r.1)

  -- The new view is kept, to be sent until every peer has it.
  unfoldable pub keep_new_view : ℕ → Map SlotId FullPrePrepare → Node → Node
  keep_new_view view preprepares n = record n {
    new_view = record {
      view_number = view;
      view_changes = n.view_change.messages;
      preprepares = preprepares;
      node = me.id;
    };
    shares_view_changes = true;
    caught_up = set_all 0 me.peermap n.caught_up;
  }

  -- The leader of the new view has its votes: it builds the new view, enters it and sends it.
  unfoldable pub lead_new_view : ℕ → Node → Option Node
  lead_new_view view n =
      and_then (generate_preprepares view n)
        λ r. send_heartbeat lib me (enter_new_view lib me view (keep_new_view view r.0 r.1))

  abbrev pub is_leader_for : ℕ → Bool
  is_leader_for view = elim (leader_for lib me.cluster view) [
    | none ↦ false
    | some leader ↦ leader == me.id
  ]

  -- The end of `handleViewChange`, where no view change was started.
  unfoldable pub try_lead : ℕ → Node → Option Node
  try_lead view n =
      if n.view_change.in_progress
        && (is_leader_for view
            && leb (2 * length me.peermap / 3) (votes_for view n.view_change.messages))
      then lead_new_view view n
      else some n

  -- `handleViewChange` after its checks of the signature.
  unfoldable pub count_view_change : SignedViewChange → Node → Option Node
  count_view_change message n =
      let view : ℕ = message.message.view_number in
      let current : ℕ = current_view n in
      let n' : Node = store_view_change message n in
      if ltb current view
        && leb (length me.peermap / 3 + 1) (higher_than current n'.view_change.messages)
      then start_view_change lib me (lowest_new_view current view n'.view_change.messages) n'
      else try_lead view n'

  unfoldable pub handle_view_change : SignedViewChange → Node → Option Node
  handle_view_change message n =
      elim (view_change_signature_valid lib me.peer_entities me.peer_entity_map message) [
        | err e ↦ some n
        | ok sender ↦
            if not (sender == message.message.node) then some n else count_view_change message n
      ]
