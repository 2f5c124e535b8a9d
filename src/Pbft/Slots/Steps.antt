-- ===== src/Pbft/Slots/Steps.antt =====
-- Every event of the main loop keeps every slot valid.
use distribute_pki.Base.{◌+◌, String, List, arith, nat_eq, string_eq, Holds}
use distribute_pki.Pbft.SlotId.{slot_id_eq}
use distribute_pki.Pbft.Messages.{DebugOp, put_op, down_op, up_op}
use distribute_pki.Pbft.Library.{Library, Host}
use distribute_pki.Pbft.Node.{Node, start_timers, init}
use distribute_pki.Pbft.Heartbeat.{new_view_acknowledged, heartbeat_answered}
use distribute_pki.Pbft.Invariants.{every_event, run-Holds}
use distribute_pki.Pbft.MainLoop.{
  Event, debugged, pre_prepared, requested, prepared, committed, checkpoint_proved, view_changed,
  new_viewed, snapshot_received, request_timed_out, timer_expired, new_view_acked, heartbeat_acked,
  debug_op, handle_debug, handle_event, step, run,
}
use distribute_pki.Pbft.MainLoop
use distribute_pki.Pbft.Slots.{IsLog}
use distribute_pki.Pbft.Slots.Handlers.{
  handle_client_request-IsLog, handle_pre_prepare-IsLog, handle_prepare-IsLog, handle_commit-IsLog,
}
use distribute_pki.Pbft.Slots.Checkpoints.{
  HasLog, handle_checkpoint-IsLog, handle_checkpoint_proof-IsLog, handle_recv_snapshot-IsLog,
}
use distribute_pki.Pbft.Slots.ViewChanges.{
  start_view_change-IsLog, timeout-IsLog, handle_view_change-IsLog, handle_new_view-IsLog,
}

module _ (lib : Library) (me : Host lib) where
  debug_op-IsLog :
      (op : DebugOp) (request : String) (n : Node)
      → HasLog lib me n
      → HasLog lib me (debug_op lib me op request n)
  unfolding debug_op
  debug_op-IsLog put_op request n h = handle_client_request-IsLog lib me request n h
  debug_op-IsLog down_op request n h = h
  debug_op-IsLog up_op request n h = h

  handle_event-IsLog :
      (event : Event) (n : Node)
      → HasLog lib me n
      → Holds (HasLog lib me) (handle_event lib me event n)
  unfolding handle_event handle_debug new_view_acknowledged heartbeat_answered
  handle_event-IsLog (debugged m) n h = debug_op-IsLog m.op m.request n h
  handle_event-IsLog (pre_prepared m) n h = handle_pre_prepare-IsLog lib me m n h
  handle_event-IsLog (requested r) n h = handle_client_request-IsLog lib me r n h
  handle_event-IsLog (prepared m) n h = handle_prepare-IsLog lib me m n h
  handle_event-IsLog (committed m) n h = handle_commit-IsLog lib me m n h
  handle_event-IsLog (MainLoop.Event.checkpointed m) n h = handle_checkpoint-IsLog lib me m n h
  handle_event-IsLog (checkpoint_proved m) n h = handle_checkpoint_proof-IsLog lib me m n h
  handle_event-IsLog (view_changed m) n h = handle_view_change-IsLog lib me m n h
  handle_event-IsLog (new_viewed m) n h = handle_new_view-IsLog lib me m n h
  handle_event-IsLog (snapshot_received number state) n h =
      handle_recv_snapshot-IsLog lib me number state n h
  handle_event-IsLog request_timed_out n h = start_view_change-IsLog lib me (n.view_number + 1) n h
  handle_event-IsLog timer_expired n h = timeout-IsLog lib me n h
  handle_event-IsLog (new_view_acked id) n h = h
  handle_event-IsLog (heartbeat_acked id r) n h = ground arith

  -- One round of the loop keeps every slot of the log valid: a pre-prepare comes with its request,
  -- each prepare and each commit stands under the node that it names, once, and a slot is marked
  -- prepared or committed only with its quorum of votes.
  pub step-IsLog :
      (event : Event) (n : Node)
      → IsLog lib me n.log
      → Holds (λ k. IsLog lib me k.log) (step lib me event n)
  unfolding step
  step-IsLog event n h = ground (arith, handle_event-IsLog event n h)

  pub init-IsLog : IsLog lib me (init lib me).log
  unfolding init start_timers
  init-IsLog = ground arith

  -- From the state that `StartNode` builds, whatever events come in whatever order, every slot of
  -- the log stays valid for as long as the process runs.
  pub run-init-IsLog :
      (events : List Event) → Holds (λ k. IsLog lib me k.log) (run lib me events (init lib me))
  run-init-IsLog events =
      run-Holds lib me (HasLog lib me) (λ _. Unit) (λ event n _ h. handle_event-IsLog event n h)
        events (init lib me) (every_event events) init-IsLog
