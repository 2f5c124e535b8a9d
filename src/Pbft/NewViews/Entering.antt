-- ===== src/Pbft/NewViews/Entering.antt =====
-- `handleNewView` of src/pbft/view_change.go. `none` ends the process.
use distribute_pki.Base.{
  ℕ, Bool, false, not, ◌&&◌, Option, none, some, List, [], ◌∷◌, ltb, ◌==◌, if◌then◌else◌, is_some,
  nat_eq, string_eq, and_then, Map, get, put,
}
use distribute_pki.Pbft.SlotId.{SlotId, slot_id_eq}
use distribute_pki.Pbft.Messages.{FullPrePrepare, SignedNewView}
use distribute_pki.Pbft.Library.{Library, Host}
use distribute_pki.Pbft.Node.{Node}
use distribute_pki.Pbft.Normal.{handle_pre_prepare}
use distribute_pki.Pbft.ViewChanges.{enter_new_view}
use distribute_pki.Pbft.NewViews.Leading.{current_view}

-- Does the slot of a number hold a request?
unfoldable pub has_request : SlotId → Node → Bool
has_request number n = elim (get number n.log) [ none ↦ false | some slot ↦ is_some slot.request ]

-- The numbers of the slots that the loop has filled, after one more pre-prepare.
unfoldable pub note_filled : SlotId → List SlotId → Node → Node → List SlotId
note_filled number filled n n' =
    if not (has_request number n) && has_request number n' then number ∷ filled else filled

-- The loop variable is one variable for all rounds (Go before 1.22), and each slot that the loop
-- filled points into it: when the loop is over they all show its last value.
unfoldable pub show_in_slot : FullPrePrepare → SlotId → Node → Node
show_in_slot last number n = elim (get number n.log) [
  | none ↦ n
  | some slot ↦ record n {
    log =
        put number
          (record slot { request = some last.request; preprepare = some last.signed_message })
          n.log;
  }
]

unfoldable pub show_last : FullPrePrepare → List SlotId → Node → Node
show_last last [] n = n
show_last last (number ∷ filled) n = show_last last filled (show_in_slot last number n)

unfoldable pub last_value : Map SlotId FullPrePrepare → Option FullPrePrepare
last_value [] = none
last_value ((id, full) ∷ preprepares) = elim (last_value preprepares) [
  | none ↦ some full
  | some last ↦ some last
]

-- What the slots show when the loop is over.
unfoldable pub finish_loop : Map SlotId FullPrePrepare → List SlotId → Node → Node
finish_loop preprepares filled n = elim (last_value preprepares) [
  | none ↦ n
  | some last ↦ show_last last filled n
]

module _ (lib : Library) (me : Host lib) where
  -- One round of the loop of `handleNewView` over the new pre-prepares.
  unfoldable pub process_preprepare :
      FullPrePrepare → List SlotId → Node → Option (List SlotId × Node)
  process_preprepare full filled n =
      if ltb n.sequence_number full.signed_message.message.number.seq_number
      then and_then (handle_pre_prepare lib me full n)
          (λ n'. some (note_filled full.signed_message.message.number filled n n', n'))
      else some (filled, n)

  unfoldable pub process_preprepares :
      Map SlotId FullPrePrepare → List SlotId → Node → Option (List SlotId × Node)
  process_preprepares [] filled n = some (filled, n)
  process_preprepares ((id, full) ∷ preprepares) filled n =
      and_then (process_preprepare full filled n) (λ r. process_preprepares preprepares r.0 r.1)

  unfoldable pub accept_new_view : SignedNewView → Node → Option Node
  accept_new_view message n =
      and_then
        (process_preprepares message.message.preprepares []
          (enter_new_view lib me message.message.view_number n))
        (λ r. some (finish_loop message.message.preprepares r.0 r.1))

  -- `handleNewView`; the check of the signature is commented out in the source.
  unfoldable pub handle_new_view : SignedNewView → Node → Option Node
  handle_new_view message n =
      let view : ℕ = message.message.view_number in
      if n.view_change.in_progress && (view == n.view_change.view_number)
      then accept_new_view message n
      else if ltb (current_view n) view
      then accept_new_view message n
      else some n
