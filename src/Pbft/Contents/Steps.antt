-- ===== src/Pbft/Contents/Steps.antt =====
-- What the events of the main loop keep of every slot, if what fills a slot puts it there.
use distribute_pki.Base.{
  ◌+◌, String, ◌≡◌, true, false, none, some, List, arith, nat_eq, string_eq, All, ok, Holds, get,
}
use distribute_pki.Pbft.SlotId.{SlotId, slot_id_eq}
use distribute_pki.Pbft.Messages.{
  NodeId, FullPrePrepare, SignedPrePrepare, SignedViewChange, SignedNewView, DebugOp, put_op,
  down_op, up_op,
}
use distribute_pki.Pbft.Library.{Library, Host}
use distribute_pki.Pbft.Signing.{sign_pre_prepare, pre_prepare_signature_valid}
use distribute_pki.Pbft.Node.{Node, is_primary, start_timers, init}
use distribute_pki.Pbft.Heartbeat.{new_view_acknowledged, heartbeat_answered}
use distribute_pki.Pbft.NewViews.{handle_view_change, handle_new_view}
use distribute_pki.Pbft.Invariants.{run-Holds}
use distribute_pki.Pbft.MainLoop.{
  Event, debugged, pre_prepared, requested, prepared, committed, checkpoint_proved, view_changed,
  new_viewed, snapshot_received, request_timed_out, timer_expired, new_view_acked, heartbeat_acked,
  debug_op, handle_debug, handle_event, step, run,
}
use distribute_pki.Pbft.MainLoop
use distribute_pki.Pbft.Normal.{handle_client_request}
use distribute_pki.Pbft.Normal.{issued_id, wrong_primary}
use distribute_pki.Pbft.Contents.{Content, Everywhere}
use distribute_pki.Pbft.Contents.Handlers.{
  handle_client_request-Everywhere, handle_pre_prepare-Everywhere,
}
use distribute_pki.Pbft.Contents.Votes.{handle_prepare-Everywhere, handle_commit-Everywhere}
use distribute_pki.Pbft.Contents.Checkpoints.{
  handle_checkpoint-Everywhere, handle_checkpoint_proof-Everywhere, handle_recv_snapshot-Everywhere,
  start_view_change-Everywhere, timeout-Everywhere,
}

-- What has to be shown of a property of slots, for every run with events of a kind to keep it: it holds
-- of an absent slot, of what the node issues as the primary, of what it takes from the primary of its
-- view, and after the messages of that kind that change the view.
pub record IsKept (lib : Library) (me : Host lib) (Q : Content) (Allowed : Event → Type 0)
    : Type 0 where
  pub nothing : (id : SlotId) → Q id none 0
  pub issued :
      (request : String) (n : Node)
      → is_primary lib me n ≡ true
      → (s : SignedPrePrepare)
      → sign_pre_prepare lib
          (record { number = issued_id lib me n; request_digest = lib.sha256 request })
          me.entity
        ≡ ok s
      → Q (issued_id lib me n) (some request) (lib.sha256 request)
  pub taken :
      (full : FullPrePrepare) (n : Node) (sender : NodeId)
      → Allowed (pre_prepared full)
      → is_primary lib me n ≡ false
      → pre_prepare_signature_valid lib me.peer_entities me.peer_entity_map full.signed_message
        ≡ ok sender
      → wrong_primary lib me full sender n ≡ false
      → full.signed_message.message.number.view_number ≡ n.view_number
      → full.signed_message.message.request_digest ≡ lib.sha256 full.request
      → Q full.signed_message.message.number
          (some full.request)
          full.signed_message.message.request_digest
  pub changes :
      (m : SignedViewChange) (n : Node)
      → Allowed (view_changed m)
      → Everywhere Q n.log
      → Holds (λ k. Everywhere Q k.log) (handle_view_change lib me m n)
  pub views :
      (m : SignedNewView) (n : Node)
      → Allowed (new_viewed m)
      → Everywhere Q n.log
      → Holds (λ k. Everywhere Q k.log) (handle_new_view lib me m n)

module _ (lib : Library) (me : Host lib) (Q : Content) (Allowed : Event → Type 0)
    (rules : IsKept lib me Q Allowed) where
  abbrev Filled : Node → Type 0
  Filled n = Everywhere Q n.log

  requested-Everywhere :
      (request : String) (n : Node) → Filled n → Filled (handle_client_request lib me request n)
  requested-Everywhere request n =
      handle_client_request-Everywhere lib me Q request n (rules.issued request n)

  debug_op-Everywhere :
      (op : DebugOp) (request : String) (n : Node)
      → Filled n
      → Filled (debug_op lib me op request n)
  unfolding debug_op
  debug_op-Everywhere put_op request n h = requested-Everywhere request n h
  debug_op-Everywhere down_op request n h = h
  debug_op-Everywhere up_op request n h = h

  handle_event-Everywhere :
      (event : Event) (n : Node)
      → Allowed event
      → Filled n
      → Holds Filled (handle_event lib me event n)
  unfolding handle_event handle_debug new_view_acknowledged heartbeat_answered
  handle_event-Everywhere (debugged m) n u h = debug_op-Everywhere m.op m.request n h
  handle_event-Everywhere (pre_prepared m) n u h =
      handle_pre_prepare-Everywhere lib me Q m n (λ sender. rules.taken m n sender u) h
  handle_event-Everywhere (requested r) n u h = requested-Everywhere r n h
  handle_event-Everywhere (prepared m) n u h = handle_prepare-Everywhere lib me Q m n h
  handle_event-Everywhere (committed m) n u h = handle_commit-Everywhere lib me Q m n h
  handle_event-Everywhere (MainLoop.Event.checkpointed m) n u h =
      handle_checkpoint-Everywhere lib me Q rules.nothing m n h
  handle_event-Everywhere (checkpoint_proved m) n u h =
      handle_checkpoint_proof-Everywhere lib me Q rules.nothing m n h
  handle_event-Everywhere (view_changed m) n u h = rules.changes m n u h
  handle_event-Everywhere (new_viewed m) n u h = rules.views m n u h
  handle_event-Everywhere (snapshot_received number state) n u h =
      handle_recv_snapshot-Everywhere lib me Q rules.nothing number state n h
  handle_event-Everywhere request_timed_out n u h =
      start_view_change-Everywhere lib me Q rules.nothing (n.view_number + 1) n h
  handle_event-Everywhere timer_expired n u h = timeout-Everywhere lib me Q rules.nothing n h
  handle_event-Everywhere (new_view_acked id) n u h = h
  handle_event-Everywhere (heartbeat_acked id r) n u h = ground (arith, h)

  init-Everywhere : Filled (init lib me)
  unfolding init start_timers get
  init-Everywhere = ground (arith, rules.nothing)

  -- What is kept holds of every slot in every state that a node comes to from the one that `StartNode`
  -- builds.
  pub run-init-Everywhere :
      (events : List Event) → All Allowed events → Holds Filled (run lib me events (init lib me))
  run-init-Everywhere events u =
      run-Holds lib me Filled Allowed handle_event-Everywhere events (init lib me) u init-Everywhere
