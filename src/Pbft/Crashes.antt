-- ===== src/Pbft/Crashes.antt =====
-- Which events can end the process.
use distribute_pki.Base.{
  is_some-and_then, Option-cases, inl, inr, get, ℕ, ◌+◌, ◌≤◌, ◌≡◌, refl, ◌≢◌, ◌↔◌, Bool, true,
  false, none, List, [], ◌∷◌, arith, is_some, nat_eq, string_eq, ok, Holds, Holds-map, Map,
}
use distribute_pki.Pbft.SlotId.{SlotId, slot_id_eq}
use distribute_pki.Pbft.Messages.{
  FullPrePrepare, SignedNewView, SignedPrePrepare, SignedCheckpointProof, Slot,
}
use distribute_pki.Pbft.Library.{Library, Host}
use distribute_pki.Pbft.Signing.{sign_pre_prepare, sign_checkpoint_proof}
use distribute_pki.Pbft.Node.{Node, get_timer, is_prepared}
use distribute_pki.Pbft.Normal.{reset_timer, handle_pre_prepare}
use distribute_pki.Pbft.ViewChanges.{
  prepared_proof, proofs_since, generate_proofs_since_checkpoint, begin_view_change,
  start_view_change, enter_new_view,
}
use distribute_pki.Pbft.Heartbeat.{no_op, repeat_pre_prepare, heartbeat_message}
use distribute_pki.Pbft.NewViews.{
  process_preprepare, process_preprepares, has_request, accept_new_view, handle_new_view,
}
use distribute_pki.Pbft.MainLoop.{
  Event, pre_prepared, view_changed, new_viewed, request_timed_out, timer_expired, handle_event,
  step,
}
use distribute_pki.Pbft.Slots.{IsSlot, IsLog, get-IsLog}
use distribute_pki.Pbft.Views.{IsReady, Keeps, Keeps-IsReady}
use distribute_pki.Pbft.Views.Frames.{Keeps-handle_pre_prepare}
use distribute_pki.Pbft.Views.Changes.{enter_new_view-Ready}

-- The events that are safe for every node: all but a view-change message and the timer.
abbrev pub is_safe : Event → Bool
is_safe (view_changed m) = false
is_safe timer_expired = false
is_safe _ = true

module _ (lib : Library) (me : Host lib) where
  -- A prepared slot has all that its proof reads.
  prepared_proof-some :
      (id : SlotId) (slot : Slot)
      → IsSlot lib me slot
      → is_prepared lib me slot ≡ true
      → is_some (prepared_proof id slot) ≡ true
  unfolding prepared_proof is_prepared
  prepared_proof-some id slot s p = ground (arith, s.paired)

  proofs_since-some :
      (last : SlotId) (log : Map SlotId Slot)
      → IsLog lib me log
      → is_some (proofs_since lib me last log) ≡ true
  unfolding proofs_since
  proofs_since-some last [] h = refl
  proofs_since-some last ((id, slot) ∷ log) h =
      ground (arith, proofs_since-some last log h.1, prepared_proof-some id slot h.0)

  -- A view change can always be started: no nil pointer is read while the proofs are gathered.
  pub start_view_change-some :
      (view : ℕ) (n : Node) → IsLog lib me n.log → is_some (start_view_change lib me view n) ≡ true
  unfolding start_view_change generate_proofs_since_checkpoint begin_view_change
  start_view_change-some view n h =
      ground (arith, proofs_since-some n.last_checkpoint.number n.log h)

  handle_pre_prepare-some :
      (full : FullPrePrepare) (n : Node)
      → IsReady lib me n
      → is_some (handle_pre_prepare lib me full n) ≡ true
  unfolding handle_pre_prepare reset_timer get_timer
  handle_pre_prepare-some full n r = ground (arith, r.timer)

  handle_pre_prepare-IsReady :
      (full : FullPrePrepare) (n : Node)
      → IsReady lib me n
      → Holds (IsReady lib me) (handle_pre_prepare lib me full n)
  handle_pre_prepare-IsReady full n r =
      Holds-map (Keeps n) (IsReady lib me) _ (λ k p. Keeps-IsReady lib me p r)
        (Keeps-handle_pre_prepare lib me full n)

  process_preprepare-some :
      (full : FullPrePrepare) (filled : List SlotId) (n : Node)
      → IsReady lib me n
      → is_some (process_preprepare lib me full filled n) ≡ true
  unfolding process_preprepare
  process_preprepare-some full filled n r = ground (arith, handle_pre_prepare-some full n r)

  process_preprepare-IsReady :
      (full : FullPrePrepare) (filled : List SlotId) (n : Node)
      → IsReady lib me n
      → Holds (λ q. IsReady lib me q.1) (process_preprepare lib me full filled n)
  unfolding process_preprepare
  process_preprepare-IsReady full filled n r = ground (arith, handle_pre_prepare-IsReady full n r)

  process_preprepares-some :
      (preprepares : Map SlotId FullPrePrepare) (filled : List SlotId) (n : Node)
      → IsReady lib me n
      → is_some (process_preprepares lib me preprepares filled n) ≡ true
  unfolding process_preprepares
  process_preprepares-some [] filled n r = refl
  process_preprepares-some ((id, full) ∷ preprepares) filled n r =
      is_some-and_then (λ (q : List SlotId × Node). IsReady lib me q.1)
        (process_preprepare lib me full filled n) _ (process_preprepare-some full filled n r)
        (process_preprepare-IsReady full filled n r)
        (λ q k. process_preprepares-some preprepares q.0 q.1 k)

  accept_new_view-some :
      (m : SignedNewView) (n : Node) → is_some (accept_new_view lib me m n) ≡ true
  unfolding accept_new_view
  accept_new_view-some m n = ground (
    arith,
    process_preprepares-some m.message.preprepares []
        (enter_new_view lib me m.message.view_number n)
        (enter_new_view-Ready lib me m.message.view_number n).0,
  )

  handle_new_view-some :
      (m : SignedNewView) (n : Node) → is_some (handle_new_view lib me m n) ≡ true
  unfolding handle_new_view
  handle_new_view-some m n = ground (arith, accept_new_view-some m n)

  -- From a ready node with a valid log no event but a view-change message or an expired timer ends the
  -- process.
  pub step-some :
      (event : Event) (n : Node)
      → IsReady lib me n
      → IsLog lib me n.log
      → is_safe event ≡ true
      → is_some (step lib me event n) ≡ true
  unfolding step handle_event
  step-some (pre_prepared m) n r h s = ground (arith, r.timer, handle_pre_prepare-some m n r)
  step-some (new_viewed m) n r h s = ground (arith, r.timer, handle_new_view-some m n)
  step-some request_timed_out n r h s =
      ground (arith, r.timer, start_view_change-some (n.view_number + 1) n h)
  step-some _ n r h s = ground (arith, r.timer)

  -- When `heartbeatMessage` ends the process, with signing at work: exactly when the peer neither is
  -- level with the node nor behind its checkpoint, and the slot after the peer's sequence number in the
  -- current view is missing from the log or holds no request.
  pub heartbeat_message_crash :
      (peer : ℕ) (n : Node) {s : SignedPrePrepare} {t : SignedCheckpointProof}
      → IsLog lib me n.log
      → sign_pre_prepare lib no_op me.entity ≡ ok s
      → sign_checkpoint_proof lib (record { proof = n.last_checkpoint; node = me.id }) me.entity
        ≡ ok t
      → (heartbeat_message lib me peer n ≡ none) ↔ (
          (n.sequence_number ≢ peer)
          × (n.last_checkpoint.number.seq_number ≤ peer)
          × (has_request (record { view_number = n.view_number; seq_number = peer + 1 }) n ≡ false))
  unfolding heartbeat_message repeat_pre_prepare has_request
  heartbeat_message_crash peer n h a b =
      let id : SlotId = record { view_number = n.view_number; seq_number = peer + 1 } in
      elim (Option-cases (get id n.log)) [
        | inl e ↦ (ground arith, ground arith)
        | inr (slot, e) ↦
            let paired = (get-IsLog lib me id n.log h e).paired in (ground arith, ground arith)
      ]
