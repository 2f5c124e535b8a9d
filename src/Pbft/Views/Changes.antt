-- ===== src/Pbft/Views/Changes.antt =====
-- The handlers of src/pbft/view_change.go leave a node ready.
use distribute_pki.Base.{
  ℕ, ◌+◌, ◌/◌, ◌≤◌, ◌<◌, ◌&&◌, Option, none, some, List, [], ◌∷◌, arith, ltb, leb, ◌==◌,
  if◌then◌else◌, ltb→lt, if-cases, and-left, nat_eq, string_eq, length, Holds, Holds-any, Holds-map,
  and_then-Holds, Map,
}
use Prim.Native.Nat.{min}
use distribute_pki.Pbft.SlotId.{SlotId}
use distribute_pki.Pbft.Messages.{NodeId, PreparedProof, SignedViewChange, SignedNewView}
use distribute_pki.Pbft.Library.{Library, Host}
use distribute_pki.Pbft.Node.{Node, is_primary, get_timer, start_timers, stop_timers}
use distribute_pki.Pbft.ViewChanges.{
  generate_proofs_since_checkpoint, begin_view_change, announce_view_change, is_outdated,
  start_view_change, enter_new_view,
}
use distribute_pki.Pbft.Heartbeat.{send_heartbeat}
use distribute_pki.Pbft.NewViews.{
  generate_preprepares, current_view, lowest_new_view, higher_than, store_view_change,
  keep_new_view, lead_new_view, try_lead, count_view_change, handle_view_change, accept_new_view,
  handle_new_view,
}
use distribute_pki.Pbft.Views.{IsReady, Keeps, Keeps-refl, Keeps-trans, Keeps-IsReady}
use distribute_pki.Pbft.Views.Frames.{Keeps-send_heartbeat}
use distribute_pki.Pbft.Views.NewViewFrames.{Keeps-finish_loop, Keeps-process}

module _ (lib : Library) (me : Host lib) where
  -- Ready for the next event, in no lower a view than `view`.
  abbrev pub ReadyFrom : ℕ → Node → Type 0
  ReadyFrom view n = IsReady lib me n × (view ≤ n.view_number)

  pub Keeps-ReadyFrom : (view : ℕ) {n k : Node} → ReadyFrom view n → Keeps n k → ReadyFrom view k
  Keeps-ReadyFrom view r p = (Keeps-IsReady lib me p r.0, ground (arith, p.view, r.1))

  pub Keeps-Holds :
      (view : ℕ) {n : Node} (o : Option Node)
      → ReadyFrom view n
      → Holds (Keeps n) o
      → Holds (ReadyFrom view) o
  Keeps-Holds view none r h = tt
  Keeps-Holds view (some k) r h = Keeps-ReadyFrom view r h

  pub enter_new_view-Ready : (view : ℕ) (n : Node) → ReadyFrom view (enter_new_view lib me view n)
  unfolding enter_new_view start_timers get_timer is_primary
  enter_new_view-Ready view n = ground arith

  announce-Ready :
      (view bound : ℕ) (proofs : Map SlotId PreparedProof) (n : Node)
      → ReadyFrom bound n
      → ReadyFrom bound (announce_view_change lib me view proofs n)
  unfolding announce_view_change stop_timers get_timer is_primary
  announce-Ready view bound proofs n r = ground (arith, r.0.timer)

  begin-Ready :
      (view : ℕ) (n : Node)
      → IsReady lib me n
      → n.view_number < view
      → ReadyFrom n.view_number (begin_view_change lib me view n)
  unfolding begin_view_change get_timer is_primary
  begin-Ready view n r lt = ground (arith, r.timer)

  pub start_view_change-Ready :
      (view : ℕ) (n : Node)
      → IsReady lib me n
      → n.view_number < view
      → Holds (ReadyFrom n.view_number) (start_view_change lib me view n)
  unfolding start_view_change
  start_view_change-Ready view n r lt =
      if-cases (Holds (ReadyFrom n.view_number)) n.down _ _ (λ _. (r, omega arith))
        λ _.
          if-cases (Holds (ReadyFrom n.view_number)) (is_outdated lib me view n) _ _
            (λ _. (r, omega arith))
            λ _.
              and_then-Holds (λ _. Unit {0}) (ReadyFrom n.view_number)
                (generate_proofs_since_checkpoint lib me (begin_view_change lib me view n)) _
                (Holds-any _)
                (λ proofs _. announce-Ready view n.view_number proofs _ (begin-Ready view n r lt))

  ReadyFrom-le : (view bound : ℕ) {n : Node} → bound ≤ view → ReadyFrom view n → ReadyFrom bound n
  ReadyFrom-le view bound h r = (r.0, omega arith)

  lead_new_view-Ready : (view : ℕ) (n : Node) → Holds (ReadyFrom view) (lead_new_view lib me view n)
  unfolding lead_new_view
  lead_new_view-Ready view n =
      and_then-Holds (λ _. Unit {0}) (ReadyFrom view) (generate_preprepares lib me view n) _
        (Holds-any _)
        (λ r _.
          let entered : Node = enter_new_view lib me view (keep_new_view lib me view r.0 r.1) in
          Keeps-Holds view (send_heartbeat lib me entered) (enter_new_view-Ready view _)
            (Keeps-send_heartbeat lib me entered entered (Keeps-refl entered)))

  try_lead-Ready :
      (view : ℕ) (n : Node)
      → IsReady lib me n
      → Holds (ReadyFrom (min n.view_number view)) (try_lead lib me view n)
  unfolding try_lead
  try_lead-Ready view n r = ground (
    arith,
    Holds-map (ReadyFrom view) (ReadyFrom (min n.view_number view)) (lead_new_view lib me view n)
        (λ k h. ReadyFrom-le view (min n.view_number view) (omega arith) h)
        (lead_new_view-Ready view n),
  )

  -- The view that f + 1 messages pull the node to is above its current one.
  lt-lowest_new_view :
      (current lowest : ℕ) (messages : Map NodeId SignedViewChange)
      → current < lowest
      → current < lowest_new_view current lowest messages
  unfolding lowest_new_view
  lt-lowest_new_view current lowest [] h = h
  lt-lowest_new_view current lowest ((node, m) ∷ messages) h =
      lt-lowest_new_view current
        (if ltb current m.message.view_number && ltb m.message.view_number lowest
          then m.message.view_number
          else lowest)
        messages (ground arith)

  le-current_view : (n : Node) → IsReady lib me n → n.view_number ≤ current_view n
  unfolding current_view
  le-current_view n r = ground (arith, r.upward)

  store_view_change-IsReady :
      (m : SignedViewChange) (n : Node) → IsReady lib me n → IsReady lib me (store_view_change m n)
  unfolding store_view_change get_timer is_primary
  store_view_change-IsReady m n r = ground (arith, r.timer)

  count_view_change-Ready :
      (m : SignedViewChange) (n : Node)
      → IsReady lib me n
      → Holds (ReadyFrom (min n.view_number m.message.view_number)) (count_view_change lib me m n)
  unfolding count_view_change store_view_change
  count_view_change-Ready m n r =
      let n' : Node = store_view_change m n in
      let view : ℕ = m.message.view_number in
      let current : ℕ = current_view n in
      let bound : ℕ = min n.view_number view in
      let r' = store_view_change-IsReady m n r in
      if-cases (Holds (ReadyFrom bound))
        (ltb current view
          && leb (length me.peermap / 3 + 1) (higher_than current n'.view_change.messages))
        _ _
        (λ e.
          Holds-map (ReadyFrom n'.view_number) (ReadyFrom bound) _
            (λ k h. ReadyFrom-le n'.view_number bound (omega arith) h)
            (start_view_change-Ready (lowest_new_view current view n'.view_change.messages) n' r' (
              omega (
                arith,
                lt-lowest_new_view current view n'.view_change.messages
                    (ltb→lt current view (and-left _ _ e)),
                le-current_view n r,
              ))))
        (λ _. try_lead-Ready view n' r')

  accept_new_view-Ready :
      (m : SignedNewView) (n : Node)
      → Holds (ReadyFrom m.message.view_number) (accept_new_view lib me m n)
  unfolding accept_new_view
  accept_new_view-Ready m n =
      let entered : Node = enter_new_view lib me m.message.view_number n in
      and_then-Holds (λ (r : List SlotId × Node). Keeps entered r.1)
        (ReadyFrom m.message.view_number) _ _
        (Keeps-process lib me m.message.preprepares [] entered entered (Keeps-refl entered))
        (λ r k.
          Keeps-ReadyFrom m.message.view_number (enter_new_view-Ready m.message.view_number n)
            (Keeps-trans k (Keeps-finish_loop lib me m.message.preprepares r.0 r.1)))

  pub handle_view_change-Ready :
      (m : SignedViewChange) (n : Node)
      → IsReady lib me n
      → Holds (ReadyFrom (min n.view_number m.message.view_number)) (handle_view_change lib me m n)
  unfolding handle_view_change
  handle_view_change-Ready m n r = ground (arith, count_view_change-Ready m n r)

  pub handle_new_view-Ready :
      (m : SignedNewView) (n : Node)
      → IsReady lib me n
      → Holds (ReadyFrom n.view_number) (handle_new_view lib me m n)
  unfolding handle_new_view
  handle_new_view-Ready m n r =
      let view : ℕ = m.message.view_number in
      let accepted : n.view_number ≤ view
          → Holds (ReadyFrom n.view_number) (accept_new_view lib me m n) =
        λ h.
          Holds-map (ReadyFrom view) (ReadyFrom n.view_number) _
            (λ k q. ReadyFrom-le view n.view_number h q) (accept_new_view-Ready m n) in
      if-cases (Holds (ReadyFrom n.view_number))
        (n.view_change.in_progress && (view == n.view_change.view_number)) _ _
        (λ e. accepted (ground (arith, r.upward)))
        (λ _.
          if-cases (Holds (ReadyFrom n.view_number)) (ltb (current_view n) view) _ _
            (λ e. accepted (omega (arith, ltb→lt _ _ e, le-current_view n r)))
            (λ _. (r, omega arith)))
