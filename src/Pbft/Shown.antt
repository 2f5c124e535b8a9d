-- ===== src/Pbft/Shown.antt =====
-- What the slots show that the loop variable of `handleNewView` of src/pbft/view_change.go is stored in.
use distribute_pki.Base.{
  String, ◌≡◌, refl, ◌∙◌, ◌≢◌, ◌⊎◌, inl, inr, Bool, true, false, ◌&&◌, ◌||◌, not, Option, none,
  some, List, [], ◌∷◌, arith, if◌then◌else◌, Option-cases, is_some, nat_eq, string_eq, get, get-put,
  get-put_ne,
}
use distribute_pki.Pbft.SlotId.{SlotId, same_slot, same_slot_iff, slot_id_eq}
use distribute_pki.Pbft.Messages.{FullPrePrepare}
use distribute_pki.Pbft.Node.{Node, empty_slot, ensure_mapping}
use distribute_pki.Pbft.NewViews.{has_request, note_filled, show_in_slot, show_last}

-- The request of a slot, where the log has one.
abbrev pub request_at : SlotId → Node → Option String
request_at j n = elim (get j n.log) [ none ↦ none | some slot ↦ slot.request ]

pub has_request-request_at : (j : SlotId) (n : Node) → has_request j n ≡ is_some (request_at j n)
unfolding has_request
has_request-request_at j n = ground arith

abbrev pub is_among : SlotId → List SlotId → Bool
is_among j [] = false
is_among j (number ∷ numbers) = same_slot number j || is_among j numbers

request_at-show_in_slot :
    (last : FullPrePrepare) (number j : SlotId) (n : Node)
    → request_at j (show_in_slot last number n)
      ≡ (if same_slot number j && is_some (get j n.log) then some last.request else request_at j n)
unfolding show_in_slot
request_at-show_in_slot last number j n = elim (Option-cases (get number n.log)) [
  | inl e ↦ ground (arith, same_slot_iff number j)
  | inr (slot, e) ↦ ground (
    arith,
    same_slot_iff number j,
    get-put number j
        (record slot { request = some last.request; preprepare = some last.signed_message }) n.log,
  )
]

-- Slots that show the last value go on to show it, and those of the list that hold a request come to.
pub request_at-show_last :
    (last : FullPrePrepare) (numbers : List SlotId) (j : SlotId) (n : Node)
    → (request_at j n ≡ some last.request) ⊎ ((is_among j numbers && has_request j n) ≡ true)
    → request_at j (show_last last numbers n) ≡ some last.request
unfolding show_last has_request
request_at-show_last last [] j n h = ground arith
request_at-show_last last (number ∷ numbers) j n h =
    let shown = request_at-show_in_slot last number j n in
    request_at-show_last last numbers j (show_in_slot last number n) (ground (arith, shown))

pub request_at-show_last_other :
    (last : FullPrePrepare) (numbers : List SlotId) (j : SlotId) (n : Node)
    → is_among j numbers ≡ false
    → request_at j (show_last last numbers n) ≡ request_at j n
unfolding show_last
request_at-show_last_other last [] j n h = refl
request_at-show_last_other last (number ∷ numbers) j n h =
    request_at-show_last_other last numbers j (show_in_slot last number n) (ground arith)
    ∙ ground (arith, request_at-show_in_slot last number j n)

pub ensure_mapping-other :
    (number j : SlotId) (n : Node)
    → number ≢ j
    → get j (ensure_mapping number n).1.log ≡ get j n.log
unfolding ensure_mapping
ensure_mapping-other number j n h = ground (arith, get-put_ne number j empty_slot n.log h)

pub is_among-note_filled :
    (number j : SlotId) (filled : List SlotId) (n n' : Node)
    → is_among j (note_filled number filled n n') ≡ (
        (same_slot number j && not (has_request number n) && has_request number n')
        || is_among j filled)
unfolding note_filled
is_among-note_filled number j filled n n' = ground arith
