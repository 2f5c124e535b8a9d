-- ===== src/Pbft/SameRequests.antt =====
-- Two backups to which no new-view message comes hold the same request in a slot.
use distribute_pki.Base.{
  ℕ, String, ◌≡◌, sym, ◌∙◌, subst, ◌≢◌, inl, inr, false, none, some, List, arith, nat_eq, string_eq,
  All, Holds,
}
use distribute_pki.Pbft.SlotId.{SlotId, slot_id_eq}
use distribute_pki.Pbft.Messages.{NodeId, Digest, SignedViewChange}
use distribute_pki.Pbft.Library.{Library, Host}
use distribute_pki.Pbft.Node.{Node, init}
use distribute_pki.Pbft.NewViews.{
  current_view, lowest_new_view, store_view_change, is_leader_for, try_lead, count_view_change,
  handle_view_change,
}
use distribute_pki.Pbft.MainLoop.{
  Event, debugged, pre_prepared, requested, prepared, committed, checkpoint_proved, view_changed,
  new_viewed, snapshot_received, request_timed_out, timer_expired, new_view_acked, heartbeat_acked,
  run,
}
use distribute_pki.Pbft.MainLoop
use distribute_pki.Pbft.Contents.{Content, Everywhere, request_in, digest_in}
use distribute_pki.Pbft.Contents.Checkpoints.{start_view_change-Everywhere}
use distribute_pki.Pbft.Contents.Steps.{IsKept, run-init-Everywhere}
use distribute_pki.Pbft.Agreement.{IsHonest, IsBackup, digest_in-agrees}

module _ (lib : Library) (me : Host lib) where
  -- No new-view message, also none that the node would refuse, and no vote for a view that the node
  -- leads.
  abbrev pub IsSteady : Event → Type 0
  IsSteady (view_changed m) = is_leader_for lib me m.message.view_number ≡ false
  IsSteady (new_viewed m) = ⊥
  IsSteady (debugged m) = Unit
  IsSteady (pre_prepared m) = Unit
  IsSteady (requested r) = Unit
  IsSteady (prepared m) = Unit
  IsSteady (committed m) = Unit
  IsSteady (MainLoop.Event.checkpointed m) = Unit
  IsSteady (checkpoint_proved m) = Unit
  IsSteady (snapshot_received number state) = Unit
  IsSteady request_timed_out = Unit
  IsSteady timer_expired = Unit
  IsSteady (new_view_acked id) = Unit
  IsSteady (heartbeat_acked id r) = Unit

  -- The digest of a slot that holds a request is that of the request.
  abbrev pub Matching : Content
  Matching id held digest = (request : String) → held ≡ some request → digest ≡ lib.sha256 request

  absent_matches : (id : SlotId) → Matching id none 0
  absent_matches id request h = ground arith

  handle_view_change-Matching :
      (m : SignedViewChange) (n : Node)
      → is_leader_for lib me m.message.view_number ≡ false
      → Everywhere Matching n.log
      → Holds (λ k. Everywhere Matching k.log) (handle_view_change lib me m n)
  unfolding handle_view_change count_view_change store_view_change try_lead
  handle_view_change-Matching m n l h =
      let n' : Node = store_view_change m n in
      let view : ℕ = m.message.view_number in
      ground (
        arith,
        h,
        l,
        start_view_change-Everywhere lib me Matching absent_matches
            (lowest_new_view (current_view n) view n'.view_change.messages) n' h,
      )

  matching_rules : IsKept lib me Matching IsSteady
  matching_rules = record {
    nothing = absent_matches;
    issued = λ request n p s e r h. ground (arith, h);
    taken = λ full n sender u p v w e d r h. ground (arith, d, h);
    changes = handle_view_change-Matching;
    views = λ m n u h. absurd u;
  }

  -- Whatever such events come, the digest of every slot that holds a request is the request's.
  pub run-init-Matching :
      (events : List Event)
      → All IsSteady events
      → Holds (λ k. Everywhere Matching k.log) (run lib me events (init lib me))
  run-init-Matching = run-init-Everywhere lib me Matching IsSteady matching_rules

  digest_in-Matching :
      (events : List Event) (n : Node) (id : SlotId) (request : String)
      → All IsSteady events
      → run lib me events (init lib me) ≡ some n
      → request_in id n.log ≡ some request
      → digest_in id n.log ≡ lib.sha256 request
  digest_in-Matching events n id request steady r h =
      let matching : Everywhere Matching n.log =
        subst (Holds (λ (m : Node). Everywhere Matching m.log)) r
          (run-init-Matching events steady) in
      matching.at id request h

-- However the messages, timers and client requests of two backups of a view come, as long as no
-- new-view message and no vote for a view that it leads comes to either: where both hold a request in a
-- slot of the view, it is the same request, if all pre-prepares for the slot that come to the two and
-- check as the leader's have one digest, and the two requests have no digest in common unless they are
-- the same and not the zero digest. The leader of the view is a peer of both.
pub request_in-agrees :
    (lib : Library) (a b : Host lib) (events_a events_b : List Event) (n k : Node) (id : SlotId)
    (leader : NodeId) (digest : Digest) (x y : String)
    → IsBackup lib a id.view_number leader
    → IsBackup lib b id.view_number leader
    → All (IsHonest lib a leader id digest) events_a
    → All (IsHonest lib b leader id digest) events_b
    → All (IsSteady lib a) events_a
    → All (IsSteady lib b) events_b
    → run lib a events_a (init lib a) ≡ some n
    → run lib b events_b (init lib b) ≡ some k
    → (lib.sha256 x ≢ 0) × (lib.sha256 y ≢ 0) × (lib.sha256 x ≡ lib.sha256 y → x ≡ y)
    → request_in id n.log ≡ some x
    → request_in id k.log ≡ some y
    → x ≡ y
request_in-agrees lib a b events_a events_b n k id leader digest x y ka kb ha hb sa sb ra rb hash hx
      hy =
    let dx = digest_in-Matching lib a events_a n id x sa ra hx in
    let dy = digest_in-Matching lib b events_b k id y sb rb hy in
    elim (digest_in-agrees lib a b events_a events_b n k id leader digest ka kb ha hb ra rb) [
      | inl e ↦ absurd (hash.0 (sym dx ∙ e))
      | inr (inl e) ↦ absurd (hash.1 (sym dy ∙ e))
      | inr (inr e) ↦ hash.2 (sym dx ∙ e ∙ dy)
    ]
