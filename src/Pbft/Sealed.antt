-- ===== src/Pbft/Sealed.antt =====
-- A slot that is committed stays so at a backup, until a checkpoint takes it: what that rests on, and
-- the handlers of the normal case.
pub mod Checkpoints
pub mod Steps
use distribute_pki.Base.{
  ℕ, String, ◌≡◌, refl, sym, ap, ◌∙◌, subst, inl, inr, Bool, true, false, not, ◌&&◌, ◌||◌, some,
  arith, Bool-cases, Option-cases, nat_eq, string_eq, Result-cases, Holds, get, put, get-put,
  get-put_self,
}
use distribute_pki.Pbft.SlotId.{SlotId, before_or_equal, same_slot, same_slot_iff, slot_id_eq}
use distribute_pki.Pbft.Messages.{FullPrePrepare, Prepare, SignedPrepare, SignedCommit, Slot}
use distribute_pki.Pbft.Library.{Library, Host}
use distribute_pki.Pbft.Signing.{sign_prepare, sign_commit}
use distribute_pki.Pbft.Node.{Node, ensure_mapping, is_primary, empty_slot, running, get_timeout}
use distribute_pki.Pbft.NewViews.{is_leader_for}
use distribute_pki.Pbft.Normal.{
  try_checkpoint, deliver, generate_digest, reset_timer, handle_client_request, prepare_for,
  accept_pre_prepare, fill_slot, place_pre_prepare, check_pre_prepare, handle_pre_prepare,
  commit_for, send_commit, count_prepare, record_prepare, handle_prepare, count_commit,
  record_commit, handle_commit,
}
use distribute_pki.Pbft.Commits.{has_committed}
use distribute_pki.Pbft.Endorsed.Handlers.{is_leader_for-is_primary}

-- A slot is committed, or the last checkpoint covers it.
abbrev pub is_sealed : SlotId → Node → Bool
is_sealed id n = has_committed id n || before_or_equal id n.last_checkpoint.number

-- The node is in a view, and a slot is sealed.
pub record Seals (id : SlotId) (view : ℕ) (n : Node) : Type 0 where
  pub in_view : n.view_number ≡ view
  pub sealed : is_sealed id n ≡ true

pub same-Seals :
    (id : SlotId) (view : ℕ) (n k : Node)
    → k.view_number ≡ n.view_number
    → k.last_checkpoint ≡ n.last_checkpoint
    → k.log ≡ n.log
    → Seals id view n
    → Seals id view k
same-Seals id view n k v c l h = record {
  in_view = v ∙ h.in_view;
  sealed = ground (arith, c, l, h.sealed);
}

-- A slot that is put in the log, marked committed if the one in its place was, unseals nothing.
pub put-Seals :
    (id j : SlotId) (view : ℕ) (slot : Slot) (n k : Node)
    → k.view_number ≡ n.view_number
    → k.last_checkpoint ≡ n.last_checkpoint
    → k.log ≡ put j slot n.log
    → (has_committed j n && not slot.committed) ≡ false
    → Seals id view n
    → Seals id view k
put-Seals id j view slot n k v c l kept h =
    let law = get-put j id slot n.log in
    let same = same_slot_iff j id in
    record {
      in_view = v ∙ h.in_view;
      sealed = elim (Bool-cases (same_slot j id)) [
        | inl e ↦
            subst (λ i. is_sealed i n ≡ true → is_sealed i k ≡ true) (same.0 e)
              (λ s. ground (arith, s, c, l, kept, get-put_self j slot n.log)) h.sealed
        | inr e ↦ ground (arith, e, c, l, law, h.sealed)
      ];
    }

pub ensure_mapping-Seals :
    (id j : SlotId) (view : ℕ) (n : Node)
    → Seals id view n
    → Seals id view (ensure_mapping j n).1
      × ((ensure_mapping j n).0.committed ≡ has_committed j (ensure_mapping j n).1)
unfolding ensure_mapping
ensure_mapping-Seals id j view n h = elim (Option-cases (get j n.log)) [
  | inl e ↦ (
    rw (e, ensure_mapping)
        (put-Seals id j view empty_slot n _ refl refl refl (ground (arith, e)) h),
    ground (arith, e, get-put_self j empty_slot n.log),
  )
  | inr (slot, e) ↦ (rw (e, ensure_mapping) h, ground (arith, e))
]

module _ (lib : Library) (me : Host lib) (id : SlotId) (view : ℕ) where
  accept_pre_prepare-Seals :
      (full : FullPrePrepare) (slot : Slot) (n : Node)
      → slot.committed ≡ has_committed full.signed_message.message.number n
      → Seals id view n
      → Seals id view (accept_pre_prepare lib me full slot n)
  unfolding accept_pre_prepare
  accept_pre_prepare-Seals full slot n c h =
      let number : SlotId = full.signed_message.message.number in
      let filled : Slot = record slot {
        request = some full.request;
        request_digest = full.signed_message.message.request_digest;
        preprepare = some full.signed_message;
      } in
      let k : Node = record n { log = put number filled n.log } in
      let placed : Seals id view k =
        put-Seals id number view filled n k refl refl refl (ground (arith, c)) h in
      elim (Result-cases
        (sign_prepare lib (prepare_for lib me full.signed_message.message) me.entity)) [
          | inl (x, e) ↦
              rw (e, accept_pre_prepare)
                (put-Seals id number view filled n _ refl refl refl (ground (arith, c)) h)
          | inr (signed, e) ↦
              rw (e, accept_pre_prepare)
                (put-Seals id number view _ k _ refl refl refl
                  (ground (arith, c, get-put_self number filled n.log)) placed)
        ]

  place_pre_prepare-Seals :
      (full : FullPrePrepare) (n : Node)
      → Seals id view n
      → Seals id view (place_pre_prepare lib me full n)
  unfolding place_pre_prepare fill_slot
  place_pre_prepare-Seals full n h =
      let number : SlotId = full.signed_message.message.number in
      let (slot, n') = ensure_mapping number n in
      let (mapped, same) = ensure_mapping-Seals id number view n h in
      ground (arith, mapped, accept_pre_prepare-Seals full slot n' same mapped)

  pub handle_pre_prepare-Seals :
      (full : FullPrePrepare) (n : Node)
      → Seals id view n
      → Holds (Seals id view) (handle_pre_prepare lib me full n)
  unfolding handle_pre_prepare check_pre_prepare reset_timer generate_digest
  handle_pre_prepare-Seals full n h =
      let timed : Node = record n { timeout_timer = running (get_timeout lib me n) } in
      let kept : Seals id view timed = same-Seals id view n timed refl refl refl h in
      ground (arith, h, kept, place_pre_prepare-Seals full timed kept)

  -- A node that does not lead its view puts no request of its own in a slot.
  pub handle_client_request-Seals :
      (request : String) (n : Node)
      → is_leader_for lib me view ≡ false
      → Seals id view n
      → Seals id view (handle_client_request lib me request n)
  unfolding handle_client_request generate_digest
  handle_client_request-Seals request n other h =
      let follows : is_primary lib me n ≡ false =
        sym (is_leader_for-is_primary lib me n) ∙ ap (is_leader_for lib me) h.in_view ∙ other in
      ground (arith, h, follows)

  send_commit-Seals :
      (m : Prepare) (slot : Slot) (n : Node)
      → slot.committed ≡ has_committed m.number n
      → Seals id view n
      → Seals id view (send_commit lib me m slot n)
  unfolding send_commit
  send_commit-Seals m slot n c h =
      elim (Result-cases (sign_commit lib (commit_for lib me m) me.entity)) [
        | inl (x, e) ↦
            rw (e, send_commit)
              (put-Seals id m.number view _ n _ refl refl refl (ground (arith, c)) h)
        | inr (signed, e) ↦
            rw (e, send_commit)
              (put-Seals id m.number view _ n _ refl refl refl (ground (arith, c)) h)
      ]

  pub handle_prepare-Seals :
      (m : SignedPrepare) (n : Node) → Seals id view n → Seals id view (handle_prepare lib me m n)
  unfolding handle_prepare record_prepare count_prepare
  handle_prepare-Seals m n h =
      let number : SlotId = m.message.number in
      let (slot, n') = ensure_mapping number n in
      let voted : Slot = record slot { prepares = put m.message.node m slot.prepares } in
      let k : Node = record n' { log = put number voted n'.log } in
      let (mapped, same) = ensure_mapping-Seals id number view n h in
      let counted : Seals id view k =
        put-Seals id number view voted n' k refl refl refl (ground (arith, same)) mapped in
      ground (arith, h, send_commit-Seals m.message voted n' same mapped, counted)

  pub handle_commit-Seals :
      (m : SignedCommit) (n : Node) → Seals id view n → Seals id view (handle_commit lib me m n)
  unfolding handle_commit record_commit count_commit deliver try_checkpoint
  handle_commit-Seals m n h =
      let number : SlotId = m.message.number in
      let (slot, n') = ensure_mapping number n in
      let voted : Slot = record slot { commits = put m.message.node m slot.commits } in
      let done : Slot = record voted { committed = true } in
      let (mapped, same) = ensure_mapping-Seals id number view n h in
      let k : Node = record n' { log = put number voted n'.log } in
      let k' : Node = record n' { log = put number done n'.log } in
      let counted : Seals id view k =
        put-Seals id number view voted n' k refl refl refl (ground (arith, same)) mapped in
      let delivered : Seals id view k' =
        put-Seals id number view done n' k' refl refl refl (ground arith) mapped in
      ground (arith, h, counted, delivered)
