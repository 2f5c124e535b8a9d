-- ===== src/Pbft/Digests.antt =====
-- What the events of the main loop keep of the digest of every slot, new views included: the digest
-- stands in the pre-prepare of the leader of the slot's view.
use distribute_pki.Base.{
  ℕ, zero, suc, ◌+◌, ◌≡◌, ◌∙◌, subst, inl, inr, true, false, none, List, [], ◌∷◌, arith, Bool-cases,
  Option-cases, nat_eq, string_eq, All, Result-cases, ok, Holds, and_then-Holds, Map, get,
}
use distribute_pki.Pbft.MainLoop.{
  pre_prepared, new_viewed, debugged, view_changed, requested, prepared, committed,
  checkpoint_proved, snapshot_received, request_timed_out, timer_expired, new_view_acked,
  heartbeat_acked,
}
use distribute_pki.Pbft.MainLoop
use distribute_pki.Pbft.Messages.{Digest, NodeId, SignedPrePrepare}
use distribute_pki.Pbft.Signing.{pre_prepare_signature_valid}
use distribute_pki.Pbft.Node.{is_primary}
use distribute_pki.Pbft.Normal.{wrong_primary}
use distribute_pki.Pbft.Contents.{Content, Everywhere}
use distribute_pki.Pbft.Endorsed.Handlers.{is_leader_for-is_primary}
use distribute_pki.Pbft.SlotId.{SlotId, slot_id_eq}
use distribute_pki.Pbft.Messages.{PrePrepare, FullPrePrepare, SignedViewChange, SignedNewView}
use distribute_pki.Pbft.Library.{Library, Host}
use distribute_pki.Pbft.Signing.{sign_pre_prepare}
use distribute_pki.Pbft.Node.{Node, init}
use distribute_pki.Pbft.NewViews.{
  Survey, request_for, raise_issued, current_view, lowest_new_view, store_view_change, show_in_slot,
  show_last, last_value, finish_loop, generate_from, generate_preprepares, keep_new_view,
  lead_new_view, is_leader_for, try_lead, count_view_change, handle_view_change, process_preprepare,
  process_preprepares, accept_new_view, handle_new_view,
}
use distribute_pki.Pbft.MainLoop.{Event, run}
use distribute_pki.Pbft.Contents.{put-Everywhere}
use distribute_pki.Pbft.Contents.Handlers.{
  store_pre_prepare-Everywhere, handle_pre_prepare-Everywhere,
}
use distribute_pki.Pbft.Contents.Checkpoints.{
  start_view_change-Everywhere, enter_new_view-Everywhere, send_heartbeat-Everywhere,
}
use distribute_pki.Pbft.Contents.Steps.{IsKept, run-init-Everywhere}

-- Of a slot's digest, `Backs` is kept if it holds of 0, of what the node signs as the leader of the slot's
-- view, and of what it takes from that leader, where the pre-prepare is `Attested`.
pub record IsDigestKept (lib : Library) (me : Host lib) (Backs : SlotId → Digest → Type 0)
    (Attested : FullPrePrepare → Type 0) : Type 0 where
  pub absent : (id : SlotId) → Backs id 0
  pub led :
      (id : SlotId) (digest : Digest) {s : SignedPrePrepare}
      → is_leader_for lib me id.view_number ≡ true
      → sign_pre_prepare lib (record { number = id; request_digest = digest }) me.entity ≡ ok s
      → Backs id digest
  pub came :
      (full : FullPrePrepare) (n : Node) {sender : NodeId}
      → Attested full
      → is_primary lib me n ≡ false
      → pre_prepare_signature_valid lib me.peer_entities me.peer_entity_map full.signed_message
        ≡ ok sender
      → wrong_primary lib me full sender n ≡ false
      → full.signed_message.message.number.view_number ≡ n.view_number
      → Backs full.signed_message.message.number full.signed_message.message.request_digest

-- Every pre-prepare that comes with an event is attested, those of a new view included.
abbrev pub IsAttested : (FullPrePrepare → Type 0) → Event → Type 0
IsAttested Attested (pre_prepared m) = Attested m
IsAttested Attested (new_viewed m) = All (λ e. Attested e.1) m.message.preprepares
IsAttested Attested (debugged m) = Unit
IsAttested Attested (view_changed m) = Unit
IsAttested Attested (requested r) = Unit
IsAttested Attested (prepared m) = Unit
IsAttested Attested (committed m) = Unit
IsAttested Attested (MainLoop.Event.checkpointed m) = Unit
IsAttested Attested (checkpoint_proved m) = Unit
IsAttested Attested (snapshot_received number state) = Unit
IsAttested Attested request_timed_out = Unit
IsAttested Attested timer_expired = Unit
IsAttested Attested (new_view_acked id) = Unit
IsAttested Attested (heartbeat_acked id r) = Unit

module _ (lib : Library) (me : Host lib) (Backs : SlotId → Digest → Type 0)
    (Attested : FullPrePrepare → Type 0) (rules : IsDigestKept lib me Backs Attested) where
  abbrev Backing : Content
  Backing id request digest = Backs id digest

  abbrev Backed : Node → Type 0
  Backed n = Everywhere Backing n.log

  absent_backed : (id : SlotId) → Backing id none 0
  absent_backed id = rules.absent id

  generate_from-Backed :
      (rounds s view : ℕ) (v : Survey) (made : Map SlotId FullPrePrepare) (n : Node)
      → is_leader_for lib me view ≡ true
      → Backed n
      → Holds (λ r. Backed r.1) (generate_from lib me rounds s view v made n)
  unfolding generate_from
  generate_from-Backed zero s view v made n l h = h
  generate_from-Backed (suc rounds) s view v made n l h =
      let id : SlotId = record { view_number = view; seq_number = s } in
      let (request, digest) = request_for lib s v in
      let m : PrePrepare = record { number = id; request_digest = digest } in
      elim (Result-cases (sign_pre_prepare lib m me.entity)) [
        | inl (x, e) ↦ rw (e, generate_from) tt
        | inr (signed, e) ↦
            rw (e, generate_from)
              (generate_from-Backed rounds (s + 1) view v _ _ l (
                store_pre_prepare-Everywhere lib me Backing id request digest signed n
                  (rules.led id digest l e) h))
      ]

  lead_new_view-Backed :
      (view : ℕ) (n : Node)
      → is_leader_for lib me view ≡ true
      → Backed n
      → Holds Backed (lead_new_view lib me view n)
  unfolding lead_new_view keep_new_view generate_preprepares raise_issued
  lead_new_view-Backed view n l h =
      and_then-Holds (λ (r : Map SlotId FullPrePrepare × Node). Backed r.1) Backed _ _
        (and_then-Holds (λ (r : Map SlotId FullPrePrepare × Node). Backed r.1) (λ r. Backed r.1) _ _
          (generate_from-Backed _ _ view _ [] n l h) (λ r k. k))
        (λ r k. send_heartbeat-Everywhere lib me Backing absent_backed _ (
          enter_new_view-Everywhere lib me Backing absent_backed view
            (keep_new_view lib me view r.0 r.1) k))

  try_lead-Backed : (view : ℕ) (n : Node) → Backed n → Holds Backed (try_lead lib me view n)
  unfolding try_lead
  try_lead-Backed view n h = elim (Bool-cases (is_leader_for lib me view)) [
    | inl l ↦ ground (arith, h, lead_new_view-Backed view n l h)
    | inr l ↦ ground (arith, h)
  ]

  handle_view_change-Backed :
      (m : SignedViewChange) (n : Node) → Backed n → Holds Backed (handle_view_change lib me m n)
  unfolding handle_view_change count_view_change store_view_change
  handle_view_change-Backed m n h =
      let n' : Node = store_view_change m n in
      let view : ℕ = m.message.view_number in
      ground (
        arith,
        h,
        start_view_change-Everywhere lib me Backing absent_backed
            (lowest_new_view (current_view n) view n'.view_change.messages) n' h,
        try_lead-Backed view n' h,
      )

  -- The loop variable's last value takes the place of the request, and not of the digest.
  show_in_slot-Backed :
      (last : FullPrePrepare) (number : SlotId) (n : Node)
      → Backed n
      → Backed (show_in_slot last number n)
  unfolding show_in_slot
  show_in_slot-Backed last number n h = elim (Option-cases (get number n.log)) [
    | inl e ↦ rw (e, show_in_slot) h
    | inr (slot, e) ↦
        rw (e, show_in_slot)
          (put-Everywhere Backing number _ n.log
            (subst (λ d. Backs number d) (ground (arith, e)) (h.at number)) h)
  ]

  show_last-Backed :
      (last : FullPrePrepare) (filled : List SlotId) (n : Node)
      → Backed n
      → Backed (show_last last filled n)
  unfolding show_last
  show_last-Backed last [] n h = h
  show_last-Backed last (number ∷ filled) n h =
      show_last-Backed last filled _ (show_in_slot-Backed last number n h)

  process-Backed :
      (preprepares : Map SlotId FullPrePrepare) (filled : List SlotId) (n : Node)
      → All (λ e. Attested e.1) preprepares
      → Backed n
      → Holds (λ r. Backed r.1) (process_preprepares lib me preprepares filled n)
  unfolding process_preprepares process_preprepare
  process-Backed [] filled n u h = h
  process-Backed ((id, full) ∷ preprepares) filled n (u, us) h =
      and_then-Holds (λ (r : List SlotId × Node). Backed r.1) (λ r. Backed r.1)
        (process_preprepare lib me full filled n) _
        (ground (
          arith,
          h,
          handle_pre_prepare-Everywhere lib me Backing full n
              (λ sender p v w e _. rules.came full n u p v w e) h,
        ))
        (λ r k. process-Backed preprepares r.0 r.1 us k)

  accept_new_view-Backed :
      (m : SignedNewView) (n : Node)
      → All (λ e. Attested e.1) m.message.preprepares
      → Backed n
      → Holds Backed (accept_new_view lib me m n)
  unfolding accept_new_view finish_loop
  accept_new_view-Backed m n u h =
      and_then-Holds (λ (r : List SlotId × Node). Backed r.1) Backed _ _
        (process-Backed m.message.preprepares [] _ u
          (enter_new_view-Everywhere lib me Backing absent_backed m.message.view_number n h))
        (λ r k. elim (Option-cases (last_value m.message.preprepares)) [
          | inl e ↦ ground (arith, k)
          | inr (last, e) ↦ ground (arith, show_last-Backed last r.0 r.1 k)
        ])

  handle_new_view-Backed :
      (m : SignedNewView) (n : Node)
      → All (λ e. Attested e.1) m.message.preprepares
      → Backed n
      → Holds Backed (handle_new_view lib me m n)
  unfolding handle_new_view
  handle_new_view-Backed m n u h = ground (arith, h, accept_new_view-Backed m n u h)

  backing_rules : IsKept lib me Backing (IsAttested Attested)
  backing_rules = record {
    nothing = absent_backed;
    issued = λ request n p s e.
        rules.led _ (lib.sha256 request) (is_leader_for-is_primary lib me n ∙ p) e;
    taken = λ full n sender u p v w e _. rules.came full n u p v w e;
    changes = λ m n _ h. handle_view_change-Backed m n h;
    views = λ m n u h. handle_new_view-Backed m n u h;
  }

  -- From the state that `StartNode` builds, every event keeps every digest of the log backed.
  pub run-init-Backed :
      (events : List Event)
      → All (IsAttested Attested) events
      → Holds (λ k. Everywhere Backing k.log) (run lib me events (init lib me))
  run-init-Backed = run-init-Everywhere lib me Backing (IsAttested Attested) backing_rules
