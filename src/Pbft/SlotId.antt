-- ===== src/Pbft/SlotId.antt =====
-- `SlotId` of src/pbft/common.go: a view and a sequence number, ordered by the view first.
use distribute_pki.Base.{ℕ, ◌≡◌, ◌↔◌, Bool, true, ◌&&◌, ltb, leb, ◌==◌, if◌then◌else◌, Eq, arith}

pub record SlotId : Type 0 where
  pub view_number : ℕ
  pub seq_number : ℕ

unfoldable pub before : SlotId → SlotId → Bool
before slot other =
    if slot.view_number == other.view_number
    then ltb slot.seq_number other.seq_number
    else ltb slot.view_number other.view_number

unfoldable pub before_or_equal : SlotId → SlotId → Bool
before_or_equal slot other =
    if slot.view_number == other.view_number
    then leb slot.seq_number other.seq_number
    else leb slot.view_number other.view_number

abbrev pub same_slot : SlotId → SlotId → Bool
same_slot a b = (a.view_number == b.view_number) && (a.seq_number == b.seq_number)

pub same_slot_iff : (a b : SlotId) → (same_slot a b ≡ true) ↔ (a ≡ b)
same_slot_iff a b = ground arith

instance abbrev pub slot_id_eq : Eq SlotId
slot_id_eq = record { beq = same_slot; beq_iff = same_slot_iff }
