-- ===== src/Pbft/Aliases.antt =====
-- What the slots that a new view fills show: the loop of `handleNewView` of src/pbft/view_change.go
-- stores pointers into its loop variable.
use distribute_pki.Base.{
  ℕ, Map, ltb, subst, ◌≡◌, refl, ◌≢◌, ◌⊎◌, inl, inr, Bool-cases, true, false, none, some, List, [],
  ◌∷◌, arith, Option-cases, nat_eq, string_eq, get,
}
use distribute_pki.Pbft.SlotId.{SlotId, same_slot, same_slot_iff, slot_id_eq}
use distribute_pki.Pbft.Messages.{FullPrePrepare, SignedNewView}
use distribute_pki.Pbft.Library.{Library, Host}
use distribute_pki.Pbft.Node.{Node, running, get_timeout, ensure_mapping, start_timers}
use distribute_pki.Pbft.Normal.{
  generate_digest, reset_timer, place_pre_prepare, check_pre_prepare, handle_pre_prepare,
}
use distribute_pki.Pbft.ViewChanges.{enter_new_view}
use distribute_pki.Pbft.NewViews.{
  has_request, note_filled, last_value, finish_loop, process_preprepare, process_preprepares,
  accept_new_view, handle_new_view,
}
use distribute_pki.Pbft.Proposals.{fill_slot-get, handle_pre_prepare-get}
use distribute_pki.Pbft.Shown.{
  request_at, has_request-request_at, is_among, request_at-show_last, request_at-show_last_other,
  ensure_mapping-other, is_among-note_filled,
}

module _ (lib : Library) (me : Host lib) where
  handle_pre_prepare-other :
      (full : FullPrePrepare) (n k : Node) (j : SlotId)
      → handle_pre_prepare lib me full n ≡ some k
      → full.signed_message.message.number ≢ j
      → get j k.log ≡ get j n.log
  unfolding handle_pre_prepare check_pre_prepare reset_timer generate_digest place_pre_prepare
  handle_pre_prepare-other full n k j e h =
      let timed : Node = record n { timeout_timer = running (get_timeout lib me n) } in
      let number : SlotId = full.signed_message.message.number in
      let (slot, n') = ensure_mapping number timed in
      ground
        (arith, fill_slot-get lib me full slot n' j (inr h), ensure_mapping-other number j timed h)

  handle_pre_prepare-has_request :
      (full : FullPrePrepare) (n k : Node) (j : SlotId)
      → handle_pre_prepare lib me full n ≡ some k
      → has_request j n ≡ true
      → has_request j k ≡ true
  unfolding has_request
  handle_pre_prepare-has_request full n k j e h = elim (Option-cases (get j n.log)) [
    | inl g ↦ ground arith
    | inr (slot, g) ↦ ground (arith, handle_pre_prepare-get lib me full n k j slot e g)
  ]

  handle_pre_prepare-no_request :
      (full : FullPrePrepare) (n k : Node) (j : SlotId)
      → handle_pre_prepare lib me full n ≡ some k
      → same_slot full.signed_message.message.number j ≡ false
      → has_request j k ≡ has_request j n
  unfolding has_request
  handle_pre_prepare-no_request full n k j e h =
      let number : SlotId = full.signed_message.message.number in
      let distinct : number ≢ j = λ p. ground (arith, (same_slot_iff number j).1 p) in
      ground (arith, handle_pre_prepare-other full n k j e distinct)

  -- The list of the loop holds the slots that it filled, and only slots that hold a request.
  record Tracks (before : Node) (r : List SlotId × Node) : Type 0 where
    noted :
        (j : SlotId)
        → (has_request j r.1 ≡ false) ⊎ (has_request j before ≡ true) ⊎ (is_among j r.0 ≡ true)
    holding : (j : SlotId) → (is_among j r.0 ≡ false) ⊎ (has_request j r.1 ≡ true)

  handle_pre_prepare-Tracks :
      (before : Node) (full : FullPrePrepare) (filled : List SlotId) (n k : Node)
      → handle_pre_prepare lib me full n ≡ some k
      → Tracks before (filled, n)
      → Tracks before (note_filled full.signed_message.message.number filled n k, k)
  handle_pre_prepare-Tracks before full filled n k e t =
      let number : SlotId = full.signed_message.message.number in
      record {
        noted = λ j. elim (Bool-cases (same_slot number j)) [
          | inl same ↦ ground (
            arith,
            t.noted j,
            is_among-note_filled number j filled n k,
            (same_slot_iff number j).0 same,
          )
          | inr other ↦ ground (
            arith,
            t.noted j,
            is_among-note_filled number j filled n k,
            handle_pre_prepare-no_request full n k j e other,
          )
        ];
        holding = λ j. elim (Bool-cases (same_slot number j)) [
          | inl same ↦ ground (
            arith,
            t.holding j,
            is_among-note_filled number j filled n k,
            (same_slot_iff number j).0 same,
            handle_pre_prepare-has_request full n k j e,
          )
          | inr other ↦ ground (
            arith,
            t.holding j,
            is_among-note_filled number j filled n k,
            handle_pre_prepare-no_request full n k j e other,
          )
        ];
      }

  process_preprepare-cases :
      (full : FullPrePrepare) (r s : List SlotId × Node)
      → process_preprepare lib me full r.0 r.1 ≡ some s
      → (r ≡ s)
        ⊎ ((k : Node) × (handle_pre_prepare lib me full r.1 ≡ some k)
            × ((note_filled full.signed_message.message.number r.0 r.1 k, k) ≡ s))
  unfolding process_preprepare
  process_preprepare-cases full r s e = elim (Option-cases (handle_pre_prepare lib me full r.1)) [
    | inl h ↦ inl (ground arith)
    | inr (k, h) ↦
        elim (Bool-cases (ltb r.1.sequence_number full.signed_message.message.number.seq_number)) [
          | inl taken ↦ inr (k, h, ground arith)
          | inr skipped ↦ inl (ground arith)
        ]
  ]

  process_preprepare-Tracks :
      (before : Node) (full : FullPrePrepare) (r s : List SlotId × Node)
      → process_preprepare lib me full r.0 r.1 ≡ some s
      → Tracks before r
      → Tracks before s
  process_preprepare-Tracks before full r s e t = elim (process_preprepare-cases full r s e) [
    | inl p ↦ subst (Tracks before) p t
    | inr (k, h, p) ↦ subst (Tracks before) p (handle_pre_prepare-Tracks before full r.0 r.1 k h t)
  ]

  process_preprepares-Tracks :
      (before : Node) (preprepares : Map SlotId FullPrePrepare) (r s : List SlotId × Node)
      → process_preprepares lib me preprepares r.0 r.1 ≡ some s
      → Tracks before r
      → Tracks before s
  unfolding process_preprepares
  process_preprepares-Tracks before [] r s e t = ground (arith, t)
  process_preprepares-Tracks before ((id, full) ∷ preprepares) r s e t =
      elim (Option-cases (process_preprepare lib me full r.0 r.1)) [
        | inl h ↦ ground arith
        | inr (x, h) ↦
            process_preprepares-Tracks before preprepares x s (ground arith)
              (process_preprepare-Tracks before full r x h t)
      ]

  Tracks-entered : (before : Node) → Tracks before ([], before)
  Tracks-entered before = record {
    noted = λ j. ground (arith, Bool-cases (has_request j before));
    holding = λ j. inl refl;
  }

  enter_new_view-has_request :
      (view : ℕ) (n : Node) (j : SlotId)
      → has_request j (enter_new_view lib me view n) ≡ has_request j n
  unfolding enter_new_view start_timers has_request
  enter_new_view-has_request view n j = ground arith

  accept_new_view-shows_last :
      (m : SignedNewView) (n k : Node) (j : SlotId) {last : FullPrePrepare}
      → accept_new_view lib me m n ≡ some k
      → last_value m.message.preprepares ≡ some last
      → has_request j n ≡ false
      → (request_at j k ≡ none) ⊎ (request_at j k ≡ some last.request)
  unfolding accept_new_view finish_loop
  accept_new_view-shows_last m n k j {last} e l h =
      let entered : Node = enter_new_view lib me m.message.view_number n in
      elim (Option-cases (process_preprepares lib me m.message.preprepares [] entered)) [
        | inl p ↦ ground arith
        | inr (r, p) ↦
            let t =
              process_preprepares-Tracks entered m.message.preprepares ([], entered) r p
                (Tracks-entered entered) in
            elim (Bool-cases (is_among j r.0)) [
              | inl among ↦ inr (ground (arith, t.holding j, request_at-show_last last r.0 j r.1))
              | inr out ↦ ground (
                arith,
                t.noted j,
                enter_new_view-has_request m.message.view_number n j,
                has_request-request_at j r.1,
                request_at-show_last_other last r.0 j r.1 out,
              )
            ]
      ]

  -- If a new view is handled, its pre-prepares have a last value, and a slot held no request before,
  -- then the slot holds no request after it, or it shows the request of that last value.
  pub handle_new_view-shows_last :
      (m : SignedNewView) (n k : Node) (j : SlotId) {last : FullPrePrepare}
      → handle_new_view lib me m n ≡ some k
      → last_value m.message.preprepares ≡ some last
      → has_request j n ≡ false
      → (request_at j k ≡ none) ⊎ (request_at j k ≡ some last.request)
  unfolding handle_new_view
  handle_new_view-shows_last m n k j {last} e l h =
      ground (arith, accept_new_view-shows_last m n k j {last = last}, has_request-request_at j n)
