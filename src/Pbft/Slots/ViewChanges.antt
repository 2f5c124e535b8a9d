-- ===== src/Pbft/Slots/ViewChanges.antt =====
-- The handlers of src/pbft/view_change.go and the heartbeats keep the log valid.
use distribute_pki.Base.{
  ◌+◌, Result-cases, Option-cases, Holds-any, and_then-Holds, if-cases, inl, inr, get, ℕ, zero, suc,
  ◌+◌, List, [], ◌∷◌, arith, nat_eq, string_eq, Holds, Map,
}
use distribute_pki.Pbft.SlotId.{SlotId, slot_id_eq}
use distribute_pki.Pbft.Messages.{
  PrePrepare, PreparedProof, FullPrePrepare, SignedViewChange, SignedNewView,
}
use distribute_pki.Pbft.Library.{Library, Host}
use distribute_pki.Pbft.Signing.{sign_pre_prepare}
use distribute_pki.Pbft.Node.{Node, empty_slot, start_timers, stop_timers}
use distribute_pki.Pbft.Normal.{store_pre_prepare}
use distribute_pki.Pbft.ViewChanges.{
  generate_proofs_since_checkpoint, begin_view_change, is_outdated, announce_view_change,
  start_view_change, enter_new_view,
}
use distribute_pki.Pbft.Heartbeat.{send_heartbeat, handle_heartbeat_timeout}
use distribute_pki.Pbft.Heartbeat.Rule.{send_heartbeat-Holds}
use distribute_pki.Pbft.NewViews.{
  Survey, request_for, generate_from, generate_preprepares, lead_new_view, try_lead,
  count_view_change, handle_view_change, process_preprepares, process_preprepare, lowest_new_view,
  store_view_change, keep_new_view, raise_issued, current_view, show_in_slot, show_last, last_value,
  finish_loop, accept_new_view, handle_new_view,
}
use distribute_pki.Pbft.Slots.{empty_slot-IsSlot, put-IsLog, get-IsLog, fill-IsSlot}
use distribute_pki.Pbft.Slots.Handlers.{handle_pre_prepare-IsLog}
use distribute_pki.Pbft.Slots.Checkpoints.{HasLog}

module _ (lib : Library) (me : Host lib) where
  announce-IsLog :
      (view : ℕ) (proofs : Map SlotId PreparedProof) (n : Node)
      → HasLog lib me n
      → HasLog lib me (announce_view_change lib me view proofs n)
  unfolding announce_view_change stop_timers
  announce-IsLog view proofs n h = ground arith

  pub start_view_change-IsLog :
      (view : ℕ) (n : Node)
      → HasLog lib me n
      → Holds (HasLog lib me) (start_view_change lib me view n)
  unfolding start_view_change begin_view_change
  start_view_change-IsLog view n h =
      if-cases (Holds (HasLog lib me)) n.down _ _ (λ _. h)
        λ _.
          if-cases (Holds (HasLog lib me)) (is_outdated lib me view n) _ _ (λ _. h)
            λ _.
              and_then-Holds (λ _. Unit {0}) (HasLog lib me)
                (generate_proofs_since_checkpoint lib me (begin_view_change lib me view n)) _
                (Holds-any _)
                (λ proofs _. announce-IsLog view proofs (begin_view_change lib me view n) h)

  enter_new_view-IsLog :
      (view : ℕ) (n : Node) → HasLog lib me n → HasLog lib me (enter_new_view lib me view n)
  unfolding enter_new_view start_timers
  enter_new_view-IsLog view n h = ground arith

  send_heartbeat-IsLog :
      (n : Node) → HasLog lib me n → Holds (HasLog lib me) (send_heartbeat lib me n)
  send_heartbeat-IsLog = send_heartbeat-Holds lib me (HasLog lib me) (λ e n h. h)

  pub timeout-IsLog :
      (n : Node) → HasLog lib me n → Holds (HasLog lib me) (handle_heartbeat_timeout lib me n)
  unfolding handle_heartbeat_timeout
  timeout-IsLog n h =
      ground (arith, start_view_change-IsLog (n.view_number + 1) n h, send_heartbeat-IsLog n h)

  generate_from-IsLog :
      (rounds s view : ℕ) (v : Survey) (made : Map SlotId FullPrePrepare) (n : Node)
      → HasLog lib me n
      → Holds (λ r. HasLog lib me r.1) (generate_from lib me rounds s view v made n)
  unfolding generate_from store_pre_prepare
  generate_from-IsLog zero s view v made n h = h
  generate_from-IsLog (suc rounds) s view v made n h =
      let id : SlotId = record { view_number = view; seq_number = s } in
      let m : PrePrepare = record { number = id; request_digest = (request_for lib s v).1 } in
      elim (Result-cases (sign_pre_prepare lib m me.entity)) [
        | inl (x, e) ↦ rw (e, generate_from) tt
        | inr (signed, e) ↦
            rw (e, generate_from)
              (generate_from-IsLog rounds (s + 1) view v _ _ (
                put-IsLog lib me id _ n.log
                  (fill-IsSlot lib me empty_slot (request_for lib s v).0 (request_for lib s v).1
                    signed (empty_slot-IsSlot lib me))
                  h))
      ]

  show_in_slot-IsLog :
      (last : FullPrePrepare) (number : SlotId) (n : Node)
      → HasLog lib me n
      → HasLog lib me (show_in_slot last number n)
  unfolding show_in_slot
  show_in_slot-IsLog last number n h = elim (Option-cases (get number n.log)) [
    | inl e ↦ rw (e, show_in_slot) h
    | inr (slot, e) ↦
        rw (e, show_in_slot)
          (put-IsLog lib me number _ n.log
            (fill-IsSlot lib me slot last.request slot.request_digest last.signed_message
              (get-IsLog lib me number n.log h e))
            h)
  ]

  show_last-IsLog :
      (last : FullPrePrepare) (filled : List SlotId) (n : Node)
      → HasLog lib me n
      → HasLog lib me (show_last last filled n)
  unfolding show_last
  show_last-IsLog last [] n h = h
  show_last-IsLog last (number ∷ filled) n h =
      show_last-IsLog last filled _ (show_in_slot-IsLog last number n h)

  finish_loop-IsLog :
      (preprepares : Map SlotId FullPrePrepare) (filled : List SlotId) (n : Node)
      → HasLog lib me n
      → HasLog lib me (finish_loop preprepares filled n)
  unfolding finish_loop
  finish_loop-IsLog preprepares filled n h = elim (Option-cases (last_value preprepares)) [
    | inl e ↦ rw (e, finish_loop) h
    | inr (last, e) ↦ rw (e, finish_loop) (show_last-IsLog last filled n h)
  ]

  generate_preprepares-IsLog :
      (view : ℕ) (n : Node)
      → HasLog lib me n
      → Holds (λ r. HasLog lib me r.1) (generate_preprepares lib me view n)
  unfolding generate_preprepares raise_issued
  generate_preprepares-IsLog view n h =
      and_then-Holds (λ (r : Map SlotId FullPrePrepare × Node). HasLog lib me r.1)
        (λ r. HasLog lib me r.1) _ _ (generate_from-IsLog _ _ view _ [] n h) (λ r k. k)

  lead_new_view-IsLog :
      (view : ℕ) (n : Node) → HasLog lib me n → Holds (HasLog lib me) (lead_new_view lib me view n)
  unfolding lead_new_view keep_new_view
  lead_new_view-IsLog view n h =
      and_then-Holds (λ (r : Map SlotId FullPrePrepare × Node). HasLog lib me r.1) (HasLog lib me) _
        _ (generate_preprepares-IsLog view n h)
        (λ r k.
          send_heartbeat-IsLog _ (enter_new_view-IsLog view (keep_new_view lib me view r.0 r.1) k))

  try_lead-IsLog :
      (view : ℕ) (n : Node) → HasLog lib me n → Holds (HasLog lib me) (try_lead lib me view n)
  unfolding try_lead
  try_lead-IsLog view n h = ground (arith, lead_new_view-IsLog view n h)

  count_view_change-IsLog :
      (m : SignedViewChange) (n : Node)
      → HasLog lib me n
      → Holds (HasLog lib me) (count_view_change lib me m n)
  unfolding count_view_change store_view_change
  count_view_change-IsLog m n h =
      let n' : Node = store_view_change m n in
      let view : ℕ = m.message.view_number in
      ground (
        arith,
        start_view_change-IsLog (lowest_new_view (current_view n) view n'.view_change.messages) n'
            h,
        try_lead-IsLog view n' h,
      )

  pub handle_view_change-IsLog :
      (m : SignedViewChange) (n : Node)
      → HasLog lib me n
      → Holds (HasLog lib me) (handle_view_change lib me m n)
  unfolding handle_view_change
  handle_view_change-IsLog m n h = ground (arith, count_view_change-IsLog m n h)

  process_one-IsLog :
      (full : FullPrePrepare) (filled : List SlotId) (n : Node)
      → HasLog lib me n
      → Holds (λ r. HasLog lib me r.1) (process_preprepare lib me full filled n)
  unfolding process_preprepare
  process_one-IsLog full filled n h = ground (arith, handle_pre_prepare-IsLog lib me full n h)

  process-IsLog :
      (preprepares : Map SlotId FullPrePrepare) (filled : List SlotId) (n : Node)
      → HasLog lib me n
      → Holds (λ r. HasLog lib me r.1) (process_preprepares lib me preprepares filled n)
  unfolding process_preprepares
  process-IsLog [] filled n h = h
  process-IsLog ((id, full) ∷ preprepares) filled n h =
      and_then-Holds (λ (r : List SlotId × Node). HasLog lib me r.1) (λ r. HasLog lib me r.1)
        (process_preprepare lib me full filled n) _ (process_one-IsLog full filled n h)
        (λ r k. process-IsLog preprepares r.0 r.1 k)

  accept_new_view-IsLog :
      (m : SignedNewView) (n : Node)
      → HasLog lib me n
      → Holds (HasLog lib me) (accept_new_view lib me m n)
  unfolding accept_new_view
  accept_new_view-IsLog m n h =
      and_then-Holds (λ (r : List SlotId × Node). HasLog lib me r.1) (HasLog lib me) _ _
        (process-IsLog m.message.preprepares [] _ (enter_new_view-IsLog m.message.view_number n h))
        (λ r k. finish_loop-IsLog m.message.preprepares r.0 r.1 k)

  pub handle_new_view-IsLog :
      (m : SignedNewView) (n : Node)
      → HasLog lib me n
      → Holds (HasLog lib me) (handle_new_view lib me m n)
  unfolding handle_new_view
  handle_new_view-IsLog m n h = ground (arith, accept_new_view-IsLog m n h)
