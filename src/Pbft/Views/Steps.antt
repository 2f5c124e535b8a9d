-- ===== src/Pbft/Views/Steps.antt =====
-- Every event keeps the node ready for the next one, and the view does not fall behind.
use distribute_pki.Base.{String, ◌+◌, ℕ, ◌≤◌, arith, nat_eq, string_eq, Holds}
use Prim.Native.Nat.{min}
use distribute_pki.Pbft.Messages.{DebugOp, put_op, down_op, up_op}
use distribute_pki.Pbft.Library.{Library, Host}
use distribute_pki.Pbft.Node.{Node, is_primary, get_timer, start_timers, init}
use distribute_pki.Pbft.Heartbeat.{
  send_heartbeat, handle_heartbeat_timeout, new_view_acknowledged, heartbeat_answered,
}
use distribute_pki.Pbft.MainLoop.{
  Event, debugged, pre_prepared, requested, prepared, committed, checkpoint_proved, view_changed,
  new_viewed, snapshot_received, request_timed_out, timer_expired, new_view_acked, heartbeat_acked,
  debug_op, handle_debug, handle_event, step, run,
}
use distribute_pki.Pbft.MainLoop
use distribute_pki.Pbft.Views.{IsReady, Keeps, Keeps-refl}
use distribute_pki.Pbft.Views.Frames.{
  Keeps-handle_client_request, Keeps-handle_pre_prepare, Keeps-handle_prepare, Keeps-handle_commit,
  Keeps-handle_checkpoint, Keeps-handle_checkpoint_proof, Keeps-handle_recv_snapshot,
  Keeps-send_heartbeat,
}
use distribute_pki.Pbft.Views.Changes.{
  ReadyFrom, Keeps-ReadyFrom, Keeps-Holds, start_view_change-Ready, handle_view_change-Ready,
  handle_new_view-Ready,
}

-- The least view that an event can leave the node in: its own, but for a view-change message, which
-- can make the leader enter the view that the message names.
abbrev pub floor : Event → Node → ℕ
floor (view_changed m) n = min n.view_number m.message.view_number
floor _ n = n.view_number

module _ (lib : Library) (me : Host lib) where
  timeout-Ready :
      (n : Node)
      → IsReady lib me n
      → Holds (ReadyFrom lib me n.view_number) (handle_heartbeat_timeout lib me n)
  unfolding handle_heartbeat_timeout
  timeout-Ready n r = ground (
    arith,
    start_view_change-Ready lib me (n.view_number + 1) n r (omega arith),
    Keeps-Holds lib me n.view_number (send_heartbeat lib me n) (r, omega arith)
        (Keeps-send_heartbeat lib me n n (Keeps-refl n)),
  )

  debug_op-Keeps :
      (op : DebugOp) (request : String) (n : Node) → Keeps n (debug_op lib me op request n)
  unfolding debug_op
  debug_op-Keeps put_op request n = Keeps-handle_client_request lib me request n
  debug_op-Keeps down_op request n = ground arith
  debug_op-Keeps up_op request n = ground arith

  handle_event-Ready :
      (event : Event) (n : Node)
      → IsReady lib me n
      → Holds (ReadyFrom lib me (floor event n)) (handle_event lib me event n)
  unfolding handle_event handle_debug new_view_acknowledged heartbeat_answered
  handle_event-Ready (debugged m) n r =
      Keeps-ReadyFrom lib me n.view_number (r, omega arith) (debug_op-Keeps m.op m.request n)
  handle_event-Ready (pre_prepared m) n r =
      Keeps-Holds lib me n.view_number _ (r, omega arith) (Keeps-handle_pre_prepare lib me m n)
  handle_event-Ready (requested q) n r =
      Keeps-ReadyFrom lib me n.view_number (r, omega arith) (Keeps-handle_client_request lib me q n)
  handle_event-Ready (prepared m) n r =
      Keeps-ReadyFrom lib me n.view_number (r, omega arith) (Keeps-handle_prepare lib me m n)
  handle_event-Ready (committed m) n r =
      Keeps-ReadyFrom lib me n.view_number (r, omega arith) (Keeps-handle_commit lib me m n)
  handle_event-Ready (MainLoop.Event.checkpointed m) n r =
      Keeps-ReadyFrom lib me n.view_number (r, omega arith) (Keeps-handle_checkpoint lib me m n)
  handle_event-Ready (checkpoint_proved m) n r =
      Keeps-ReadyFrom lib me n.view_number (r, omega arith)
        (Keeps-handle_checkpoint_proof lib me m n)
  handle_event-Ready (view_changed m) n r = handle_view_change-Ready lib me m n r
  handle_event-Ready (new_viewed m) n r = handle_new_view-Ready lib me m n r
  handle_event-Ready (snapshot_received number state) n r =
      Keeps-ReadyFrom lib me n.view_number (r, omega arith)
        (Keeps-handle_recv_snapshot lib me number state n)
  handle_event-Ready request_timed_out n r =
      start_view_change-Ready lib me (n.view_number + 1) n r (omega arith)
  handle_event-Ready timer_expired n r = timeout-Ready n r
  handle_event-Ready (new_view_acked id) n r =
      Keeps-ReadyFrom lib me n.view_number (r, omega arith) (ground arith)
  handle_event-Ready (heartbeat_acked id q) n r =
      Keeps-ReadyFrom lib me n.view_number (r, omega arith) (ground arith)

  -- A round of the loop from a ready node leaves it ready: the timer that the loop selects on is not
  -- nil, a view change in progress leads to a higher view, and the sequence number is at least 1.
  -- The view does not fall, but for a view-change message, where it may fall to that message's view.
  pub step-Ready :
      (event : Event) (n : Node)
      → IsReady lib me n
      → Holds (λ k. IsReady lib me k × (floor event n ≤ k.view_number)) (step lib me event n)
  unfolding step
  step-Ready event n r = ground (arith, handle_event-Ready event n r)

  pub init-IsReady : IsReady lib me (init lib me)
  unfolding init start_timers get_timer is_primary
  init-IsReady = ground arith
