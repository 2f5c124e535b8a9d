-- ===== src/Pbft/Views/NewViewFrames.antt =====
-- What the building and the taking of a new view's pre-prepares keep.
use distribute_pki.Base.{
  ℕ, zero, suc, ◌+◌, String, inl, inr, List, [], ◌∷◌, arith, ltb, if-cases, Option-cases, nat_eq,
  string_eq, Result-cases, Holds, and_then-Holds, Map,
}
use distribute_pki.Pbft.SlotId.{SlotId, slot_id_eq}
use distribute_pki.Pbft.Messages.{PrePrepare, SignedPrePrepare, Digest, FullPrePrepare}
use distribute_pki.Pbft.Library.{Library, Host}
use distribute_pki.Pbft.Node.{Node}
use distribute_pki.Pbft.Normal.{store_pre_prepare, handle_pre_prepare}
use distribute_pki.Pbft.Signing.{sign_pre_prepare}
use distribute_pki.Pbft.NewViews.{
  Survey, request_for, generate_from, raise_issued, generate_preprepares, last_value, finish_loop,
  show_last, show_in_slot, process_preprepare, process_preprepares,
}
use distribute_pki.Pbft.Views.{Keeps, Keeps-refl, Keeps-trans}
use distribute_pki.Pbft.Views.Frames.{Keeps-handle_pre_prepare}

Keeps-show_in_slot :
    (last : FullPrePrepare) (number : SlotId) (n : Node) → Keeps n (show_in_slot last number n)
unfolding show_in_slot
Keeps-show_in_slot last number n = ground arith

module _ (lib : Library) (me : Host lib) where
  Keeps-store :
      (id : SlotId) (request : String) (digest : Digest) (signed : SignedPrePrepare) (n : Node)
      → Keeps n (store_pre_prepare id request digest signed n)
  unfolding store_pre_prepare
  Keeps-store id request digest signed n = ground arith

  Keeps-generate_from :
      (rounds s view : ℕ) (v : Survey) (made : Map SlotId FullPrePrepare) (n k : Node)
      → Keeps n k
      → Holds (λ r. Keeps n r.1) (generate_from lib me rounds s view v made k)
  unfolding generate_from
  Keeps-generate_from zero s view v made n k p = p
  Keeps-generate_from (suc rounds) s view v made n k p =
      let id : SlotId = record { view_number = view; seq_number = s } in
      let m : PrePrepare = record { number = id; request_digest = (request_for lib s v).1 } in
      elim (Result-cases (sign_pre_prepare lib m me.entity)) [
        | inl (x, e) ↦ rw (e, generate_from) tt
        | inr (signed, e) ↦
            rw (e, generate_from)
              (Keeps-generate_from rounds (s + 1) view v _ n _
                (Keeps-trans p (Keeps-store id _ _ signed k)))
      ]

  Keeps-raise : (s : ℕ) (n : Node) → Keeps n (raise_issued s n)
  unfolding raise_issued
  Keeps-raise s n = ground arith

  pub Keeps-generate_preprepares :
      (view : ℕ) (n : Node) → Holds (λ r. Keeps n r.1) (generate_preprepares lib me view n)
  unfolding generate_preprepares
  Keeps-generate_preprepares view n =
      and_then-Holds (λ (r : Map SlotId FullPrePrepare × Node). Keeps n r.1) (λ r. Keeps n r.1) _ _
        (Keeps-generate_from _ _ view _ [] n n (Keeps-refl n))
        (λ r k. Keeps-trans k (Keeps-raise _ r.1))

  Keeps-show_last :
      (last : FullPrePrepare) (filled : List SlotId) (n k : Node)
      → Keeps n k
      → Keeps n (show_last last filled k)
  unfolding show_last
  Keeps-show_last last [] n k p = p
  Keeps-show_last last (number ∷ filled) n k p =
      Keeps-show_last last filled n _ (Keeps-trans p (Keeps-show_in_slot last number k))

  pub Keeps-finish_loop :
      (preprepares : Map SlotId FullPrePrepare) (filled : List SlotId) (n : Node)
      → Keeps n (finish_loop preprepares filled n)
  unfolding finish_loop
  Keeps-finish_loop preprepares filled n = elim (Option-cases (last_value preprepares)) [
    | inl e ↦ rw (e, finish_loop) (Keeps-refl n)
    | inr (last, e) ↦ rw (e, finish_loop) (Keeps-show_last last filled n n (Keeps-refl n))
  ]

  Keeps-process_one :
      (full : FullPrePrepare) (filled : List SlotId) (n k : Node)
      → Keeps n k
      → Holds (λ r. Keeps n r.1) (process_preprepare lib me full filled k)
  unfolding process_preprepare
  Keeps-process_one full filled n k p =
      if-cases (Holds (λ (r : List SlotId × Node). Keeps n r.1))
        (ltb k.sequence_number full.signed_message.message.number.seq_number) _ _
        (λ _.
          and_then-Holds (Keeps k) (λ (r : List SlotId × Node). Keeps n r.1)
            (handle_pre_prepare lib me full k) _ (Keeps-handle_pre_prepare lib me full k)
            (λ m q. Keeps-trans p q))
        (λ _. p)

  pub Keeps-process :
      (preprepares : Map SlotId FullPrePrepare) (filled : List SlotId) (n k : Node)
      → Keeps n k
      → Holds (λ r. Keeps n r.1) (process_preprepares lib me preprepares filled k)
  unfolding process_preprepares
  Keeps-process [] filled n k p = p
  Keeps-process ((id, full) ∷ preprepares) filled n k p =
      and_then-Holds (λ (r : List SlotId × Node). Keeps n r.1) (λ r. Keeps n r.1)
        (process_preprepare lib me full filled k) _ (Keeps-process_one full filled n k p)
        (λ r q. Keeps-process preprepares r.0 n r.1 q)
