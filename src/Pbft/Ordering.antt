-- ===== src/Pbft/Ordering.antt =====
-- The order of slots, of src/pbft/common.go.
use distribute_pki.Base.{◌&&◌, ◌≡◌, ◌↔◌, ◌⊎◌, true, false, not, arith, nat_eq, string_eq}
use distribute_pki.Pbft.SlotId.{SlotId, before, before_or_equal}

-- `Before` orders slots by view and then by sequence number: it is irreflexive and transitive, and
-- of two slots the first comes before, they are equal, or the second comes before.
pub before_strict_order :
    (a b c : SlotId)
    → (before a a ≡ false)
      × (((before a b && before b c) && not (before a c)) ≡ false)
      × ((before a b ≡ true) ⊎ (a ≡ b) ⊎ (before b a ≡ true))
unfolding before
before_strict_order a b c = (ground arith, ground arith, ground arith)

-- `BeforeOrEqual` holds exactly when `Before` fails the other way round, which is when `Before`
-- holds or the slots are equal.
pub before_or_equal_lem :
    (a b : SlotId)
    → (before_or_equal a b ≡ not (before b a))
      × ((before_or_equal a b ≡ true) ↔ ((before a b ≡ true) ⊎ (a ≡ b)))
unfolding before before_or_equal
before_or_equal_lem a b = (ground arith, (ground arith, ground arith))
