-- ===== src/Pbft/MainLoop.antt =====
-- `handleMessages` of src/pbft/node.go: one event at a time. Which event comes next is the network's
-- and the clock's choice, so a run takes the events as a list. src/pbft/debug.go's handler is here.
use distribute_pki.Base.{
  ◌+◌, String, true, false, Option, none, some, List, [], ◌∷◌, nat_eq, string_eq, and_then,
}
use distribute_pki.Pbft.SlotId.{SlotId}
use distribute_pki.Pbft.Messages.{
  NodeId, Bytes, FullPrePrepare, SignedPpResponse, SignedPrepare, SignedCommit, SignedCheckpoint,
  SignedCheckpointProof, SignedViewChange, SignedNewView, DebugMessage, DebugOp, put_op, down_op,
  up_op,
}
use distribute_pki.Pbft.Library.{Library, Host}
use distribute_pki.Pbft.Node.{Node, unset, stopped, running, get_timer}
use distribute_pki.Pbft.Normal.{
  handle_client_request, handle_pre_prepare, handle_prepare, handle_commit,
}
use distribute_pki.Pbft.Checkpoints.{
  handle_checkpoint, handle_checkpoint_proof, handle_recv_snapshot,
}
use distribute_pki.Pbft.ViewChanges.{start_view_change}
use distribute_pki.Pbft.Heartbeat.{
  handle_heartbeat_timeout, new_view_acknowledged, heartbeat_answered,
}
use distribute_pki.Pbft.NewViews.{handle_view_change, handle_new_view}

-- The cases of the `select`, and the two callbacks of a heartbeat, which other goroutines run.
pub data Event : Type 0 where
  debugged : DebugMessage → Event
  pre_prepared : FullPrePrepare → Event
  requested : String → Event
  prepared : SignedPrepare → Event
  committed : SignedCommit → Event
  checkpointed : SignedCheckpoint → Event
  checkpoint_proved : SignedCheckpointProof → Event
  view_changed : SignedViewChange → Event
  new_viewed : SignedNewView → Event
  snapshot_received : SlotId → Bytes → Event
  request_timed_out : Event
  timer_expired : Event
  new_view_acked : NodeId → Event
  heartbeat_acked : NodeId → SignedPpResponse → Event

-- `blockUntilUp` on the messages that come: the rest of them once one says UP; `none` while it waits.
unfoldable pub block_until_up : List DebugMessage → Option (List DebugMessage)
block_until_up [] = none
block_until_up (m ∷ messages) =
    let rest = block_until_up messages in
    elim m.op [ put_op ↦ rest | down_op ↦ rest | up_op ↦ some messages ]

module _ (lib : Library) (me : Host lib) where
  unfoldable pub debug_op : DebugOp → String → Node → Node
  debug_op put_op request n = handle_client_request lib me request n
  debug_op down_op request n = record n { down = true }
  debug_op up_op request n = record n { down = false }

  unfoldable pub handle_debug : DebugMessage → Node → Node
  handle_debug m n = debug_op m.op m.request n

  unfoldable pub handle_event : Event → Node → Option Node
  handle_event (debugged m) n = some (handle_debug m n)
  handle_event (pre_prepared m) n = handle_pre_prepare lib me m n
  handle_event (requested r) n = some (handle_client_request lib me r n)
  handle_event (prepared m) n = some (handle_prepare lib me m n)
  handle_event (committed m) n = some (handle_commit lib me m n)
  handle_event (checkpointed m) n = some (handle_checkpoint lib me m n)
  handle_event (checkpoint_proved m) n = some (handle_checkpoint_proof lib me m n)
  handle_event (view_changed m) n = handle_view_change lib me m n
  handle_event (new_viewed m) n = handle_new_view lib me m n
  handle_event (snapshot_received number state) n =
      some (handle_recv_snapshot lib me number state n)
  handle_event request_timed_out n = start_view_change lib me (n.view_number + 1) n
  handle_event timer_expired n = handle_heartbeat_timeout lib me n
  handle_event (new_view_acked id) n = some (new_view_acknowledged lib me id n)
  handle_event (heartbeat_acked id r) n = some (heartbeat_answered lib me id r n)

  -- A round of the loop. The `select` evaluates `n.getTimer()` first, which panics on a nil timer.
  unfoldable pub step : Event → Node → Option Node
  step event n = elim (get_timer lib me n) [
    | unset ↦ none
    | stopped ↦ handle_event event n
    | running d ↦ handle_event event n
  ]

  unfoldable pub run : List Event → Node → Option Node
  run [] n = some n
  run (event ∷ events) n = and_then (step event n) (λ n'. run events n')
