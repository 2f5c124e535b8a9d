-- ===== src/Pbft/Sealed/Steps.antt =====
-- A backup to which no new-view message comes hands the request of a slot to its client once.
use distribute_pki.Base.{
  ℕ, ◌+◌, String, ◌≡◌, refl, sym, ◌∙◌, subst, ◌≢◌, true, false, some, List, arith, nat_eq,
  string_eq, All, Holds,
}
use distribute_pki.Pbft.SlotId.{SlotId, slot_id_eq}
use distribute_pki.Pbft.Messages.{SignedViewChange, SignedCommit, DebugOp, put_op, down_op, up_op}
use distribute_pki.Pbft.Library.{Library, Host}
use distribute_pki.Pbft.Node.{Node, ensure_mapping}
use distribute_pki.Pbft.Heartbeat.{new_view_acknowledged, heartbeat_answered}
use distribute_pki.Pbft.NewViews.{
  current_view, lowest_new_view, store_view_change, is_leader_for, try_lead, count_view_change,
  handle_view_change,
}
use distribute_pki.Pbft.Normal.{count_commit, record_commit, handle_commit}
use distribute_pki.Pbft.Invariants.{run-Holds}
use distribute_pki.Pbft.MainLoop.{
  Event, debugged, pre_prepared, requested, prepared, committed, checkpoint_proved, view_changed,
  new_viewed, snapshot_received, request_timed_out, timer_expired, new_view_acked, heartbeat_acked,
  debug_op, handle_debug, handle_event, step, run,
}
use distribute_pki.Pbft.MainLoop
use distribute_pki.Pbft.Ordering.{before_or_equal_lem}
use distribute_pki.Pbft.Commits.{has_committed}
use distribute_pki.Pbft.Deliveries.{delivered}
use distribute_pki.Pbft.SameRequests.{IsSteady}
use distribute_pki.Pbft.Sealed.{
  is_sealed, Seals, same-Seals, handle_pre_prepare-Seals, handle_client_request-Seals,
  handle_prepare-Seals, handle_commit-Seals,
}
use distribute_pki.Pbft.Sealed.Checkpoints.{
  handle_checkpoint-Seals, handle_checkpoint_proof-Seals, handle_recv_snapshot-Seals,
  start_view_change-Seals, timeout-Seals,
}

module _ (lib : Library) (me : Host lib) (id : SlotId) (view : ℕ)
    (other : is_leader_for lib me view ≡ false) where
  handle_view_change-Seals :
      (m : SignedViewChange) (n : Node)
      → is_leader_for lib me m.message.view_number ≡ false
      → Seals id view n
      → Holds (Seals id view) (handle_view_change lib me m n)
  unfolding handle_view_change count_view_change store_view_change try_lead
  handle_view_change-Seals m n l h =
      let n' : Node = store_view_change m n in
      let kept : Seals id view n' = same-Seals id view n n' refl refl refl h in
      ground (
        arith,
        kept,
        l,
        start_view_change-Seals lib me id view
            (lowest_new_view (current_view n) m.message.view_number n'.view_change.messages) n'
            kept,
      )

  debug_op-Seals :
      (op : DebugOp) (request : String) (n : Node)
      → Seals id view n
      → Seals id view (debug_op lib me op request n)
  unfolding debug_op
  debug_op-Seals put_op request n h = handle_client_request-Seals lib me id view request n other h
  debug_op-Seals down_op request n h = same-Seals id view n _ refl refl refl h
  debug_op-Seals up_op request n h = same-Seals id view n _ refl refl refl h

  handle_event-Seals :
      (event : Event) (n : Node)
      → IsSteady lib me event
      → Seals id view n
      → Holds (Seals id view) (handle_event lib me event n)
  unfolding handle_event handle_debug new_view_acknowledged heartbeat_answered
  handle_event-Seals (debugged m) n u h = debug_op-Seals m.op m.request n h
  handle_event-Seals (pre_prepared m) n u h = handle_pre_prepare-Seals lib me id view m n h
  handle_event-Seals (requested r) n u h = handle_client_request-Seals lib me id view r n other h
  handle_event-Seals (prepared m) n u h = handle_prepare-Seals lib me id view m n h
  handle_event-Seals (committed m) n u h = handle_commit-Seals lib me id view m n h
  handle_event-Seals (MainLoop.Event.checkpointed m) n u h =
      handle_checkpoint-Seals lib me id view m n h
  handle_event-Seals (checkpoint_proved m) n u h =
      handle_checkpoint_proof-Seals lib me id view m n h
  handle_event-Seals (view_changed m) n u h = handle_view_change-Seals m n u h
  handle_event-Seals (new_viewed m) n u h = absurd u
  handle_event-Seals (snapshot_received number state) n u h =
      handle_recv_snapshot-Seals lib me id view number state n h
  handle_event-Seals request_timed_out n u h =
      start_view_change-Seals lib me id view (n.view_number + 1) n h
  handle_event-Seals timer_expired n u h = timeout-Seals lib me id view n h
  handle_event-Seals (new_view_acked i) n u h = same-Seals id view n _ refl refl refl h
  handle_event-Seals (heartbeat_acked i r) n u h = ground (arith, h)

module _ (lib : Library) (me : Host lib) where
  -- A commit for a sealed slot that is not the last checkpoint's hands nothing over.
  delivered-handle_commit_sealed :
      (m : SignedCommit) (k : Node)
      → is_sealed m.message.number k ≡ true
      → k.last_checkpoint.number ≢ m.message.number
      → delivered (handle_commit lib me m k) ≡ delivered k
  unfolding handle_commit record_commit count_commit ensure_mapping
  delivered-handle_commit_sealed m k s apart =
      let order = before_or_equal_lem m.message.number k.last_checkpoint.number in
      let apart' : m.message.number ≢ k.last_checkpoint.number = λ e. apart (sym e) in
      ground (arith, s, order, apart')

  -- Once a slot is committed at a backup, no commit message for it hands anything to the client again:
  -- however messages, timers and client requests came meanwhile, checkpoints and the start of a view
  -- change included, as long as no new-view message came, also none that is refused, and no vote for a
  -- view that the node leads, and unless the slot has become the last checkpoint's own.
  pub delivered-handle_commit_once :
      (events : List Event) (n k : Node) (id : SlotId) (m : SignedCommit)
      → is_leader_for lib me n.view_number ≡ false
      → has_committed id n ≡ true
      → All (IsSteady lib me) events
      → run lib me events n ≡ some k
      → m.message.number ≡ id
      → k.last_checkpoint.number ≢ id
      → delivered (handle_commit lib me m k) ≡ delivered k
  delivered-handle_commit_once events n k id m other c steady r e apart =
      let start : Seals id n.view_number n = record {
        in_view = refl;
        sealed = ground (arith, c);
      } in
      let last : Seals id n.view_number k = subst (Holds (Seals id n.view_number)) r (
        run-Holds lib me (Seals id n.view_number) (IsSteady lib me)
          (handle_event-Seals lib me id n.view_number other) events n steady start) in
      delivered-handle_commit_sealed m k (subst (λ i. is_sealed i k ≡ true) (sym e) last.sealed)
        (λ same. apart (same ∙ e))
