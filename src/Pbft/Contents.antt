-- ===== src/Pbft/Contents.antt =====
-- What holds of the request and the digest of every slot of a log, and of an absent slot's.
pub mod Handlers
pub mod Votes
pub mod Checkpoints
pub mod Steps
use distribute_pki.Base.{
  zero, String, ◌≡◌, subst, inl, inr, Option, none, some, arith, Bool-cases, nat_eq, string_eq, Map,
  get, put, remove, get-put, get-remove,
}
use distribute_pki.Pbft.SlotId.{SlotId, same_slot, same_slot_iff, slot_id_eq}
use distribute_pki.Pbft.Messages.{Digest, Slot}
use distribute_pki.Pbft.Node.{Node, empty_slot, ensure_mapping}

-- The request and the digest that a log has for a slot; nil and 0, which is the zero array, where it
-- has no such slot.
abbrev pub request_in : SlotId → Map SlotId Slot → Option String
request_in id log = elim (get id log) [ none ↦ none | some slot ↦ slot.request ]

abbrev pub digest_in : SlotId → Map SlotId Slot → Digest
digest_in id log = elim (get id log) [ none ↦ 0 | some slot ↦ slot.request_digest ]

abbrev pub Content : Type 1
Content = SlotId → Option String → Digest → Type 0

pub record Everywhere (Q : Content) (log : Map SlotId Slot) : Type 0 where
  pub at : (id : SlotId) → Q id (request_in id log) (digest_in id log)

module _ (Q : Content) where
  transport_content :
      (id : SlotId) {r s : Option String} {d e : Digest} → r ≡ s → d ≡ e → Q id r d → Q id s e
  transport_content id {r} {s} {d} {e} p q h = subst (Q id s) q (subst (λ t. Q id t d) p h)

  pub put-Everywhere :
      (j : SlotId) (slot : Slot) (log : Map SlotId Slot)
      → Q j slot.request slot.request_digest
      → Everywhere Q log
      → Everywhere Q (put j slot log)
  put-Everywhere j slot log b h = record {
    at = λ id.
        let law = get-put j id slot log in
        elim (Bool-cases (same_slot j id)) [
          | inl e ↦
              transport_content id (ground (arith, law)) (ground (arith, law))
                (subst (λ k. Q k slot.request slot.request_digest) ((same_slot_iff j id).0 e) b)
          | inr e ↦ transport_content id (ground (arith, law)) (ground (arith, law)) (h.at id)
        ];
  }

  pub ensure_mapping-Everywhere :
      (j : SlotId) (n : Node)
      → Everywhere Q n.log
      → Everywhere Q (ensure_mapping j n).1.log
        × Q j (ensure_mapping j n).0.request (ensure_mapping j n).0.request_digest
  unfolding ensure_mapping
  ensure_mapping-Everywhere j n h = (
    record {
      at = λ id.
          let law = get-put j id empty_slot n.log in
          transport_content id (ground (arith, law, same_slot_iff j id))
            (ground (arith, law, same_slot_iff j id)) (h.at id);
    },
    transport_content j (ground arith) (ground arith) (h.at j),
  )

  module _ (nothing : (id : SlotId) → Q id none 0) where
    pub remove-Everywhere :
        (j : SlotId) (log : Map SlotId Slot) → Everywhere Q log → Everywhere Q (remove j log)
    remove-Everywhere j log h = record {
      at = λ id.
          let law = get-remove j id log in
          elim (Bool-cases (same_slot j id)) [
            | inl e ↦ transport_content id (ground (arith, law)) (ground (arith, law)) (nothing id)
            | inr e ↦ transport_content id (ground (arith, law)) (ground (arith, law)) (h.at id)
          ];
    }
