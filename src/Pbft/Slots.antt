-- ===== src/Pbft/Slots.antt =====
-- The invariant of the log: what every slot satisfies, through every handler.
pub mod Handlers
pub mod Checkpoints
pub mod ViewChanges
pub mod Steps
use distribute_pki.Base.{
  ◌⊎◌, inl, inr, false, subst, String, ◌≡◌, refl, true, some, arith, Option-cases, is_some, nat_eq,
  string_eq, All, Map, get, put, remove, get-All, All-put, All-remove, Distinct, put-Distinct,
  length-put-le,
}
use distribute_pki.Pbft.SlotId.{SlotId, slot_id_eq}
use distribute_pki.Pbft.Messages.{
  NodeId, Digest, SignedPrePrepare, SignedPrepare, SignedCommit, Slot,
}
use distribute_pki.Pbft.Library.{Library, Host}
use distribute_pki.Pbft.Node.{
  Node, Timer, Effect, empty_slot, ensure_mapping, two_f, is_prepared, is_committed,
}

-- Votes stand under the node that signed them, and no node has two.
abbrev pub KeyedPrepares : Map NodeId SignedPrepare → Type 0
KeyedPrepares m = Distinct m × All (λ e. e.1.message.node ≡ e.0) m

abbrev pub KeyedCommits : Map NodeId SignedCommit → Type 0
KeyedCommits m = Distinct m × All (λ e. e.1.message.node ≡ e.0) m

pub record IsSlot (lib : Library) (me : Host lib) (slot : Slot) : Type 0 where
  -- a pre-prepare and its request come together
  pub paired : is_some slot.preprepare ≡ is_some slot.request
  pub prepares : KeyedPrepares slot.prepares
  pub commits : KeyedCommits slot.commits
  pub prepared_quorum : (slot.prepared ≡ false) ⊎ (is_prepared lib me slot ≡ true)
  pub committed_quorum : (slot.committed ≡ false) ⊎ (is_committed lib me slot ≡ true)

module _ (lib : Library) (me : Host lib) where
  abbrev pub IsLog : Map SlotId Slot → Type 0
  IsLog log = All (λ e. IsSlot lib me e.1) log

  pub empty_slot-IsSlot : IsSlot lib me empty_slot
  empty_slot-IsSlot = record {
    paired = refl;
    prepares = (tt, tt);
    commits = (tt, tt);
    prepared_quorum = inl refl;
    committed_quorum = inl refl;
  }

  pub put-IsLog :
      (id : SlotId) (slot : Slot) (log : Map SlotId Slot)
      → IsSlot lib me slot
      → IsLog log
      → IsLog (put id slot log)
  put-IsLog id slot log s h = All-put (λ e. IsSlot lib me e.1) id slot log s h

  pub remove-IsLog : (id : SlotId) (log : Map SlotId Slot) → IsLog log → IsLog (remove id log)
  remove-IsLog id log h = All-remove (λ e. IsSlot lib me e.1) id log h

  pub get-IsLog :
      (id : SlotId) (log : Map SlotId Slot) {slot : Slot}
      → IsLog log
      → get id log ≡ some slot
      → IsSlot lib me slot
  get-IsLog id log h g = get-All (λ e. IsSlot lib me e.1) id log h g

  pub ensure_mapping-IsSlot :
      (id : SlotId) (n : Node) → IsLog n.log → IsSlot lib me (ensure_mapping id n).0
  unfolding ensure_mapping
  ensure_mapping-IsSlot id n h = elim (Option-cases (get id n.log)) [
    | inl e ↦ rw (e, ensure_mapping) empty_slot-IsSlot
    | inr (slot, e) ↦ rw (e, ensure_mapping) (get-IsLog id n.log h e)
  ]

  pub ensure_mapping-IsLog :
      (id : SlotId) (n : Node) → IsLog n.log → IsLog (ensure_mapping id n).1.log
  unfolding ensure_mapping
  ensure_mapping-IsLog id n h = elim (Option-cases (get id n.log)) [
    | inl e ↦ rw (e, ensure_mapping) (put-IsLog id empty_slot n.log empty_slot-IsSlot h)
    | inr (slot, e) ↦ rw (e, ensure_mapping) h
  ]

  -- A vote more keeps a slot valid.
  pub add_prepare-IsSlot :
      (slot : Slot) (m : SignedPrepare)
      → IsSlot lib me slot
      → IsSlot lib me (record slot { prepares = put m.message.node m slot.prepares })
  unfolding is_prepared is_committed
  add_prepare-IsSlot slot m s = record {
    paired = s.paired;
    prepares = (
      put-Distinct m.message.node m slot.prepares s.prepares.0,
      All-put (λ e. e.1.message.node ≡ e.0) m.message.node m slot.prepares refl s.prepares.1,
    );
    commits = s.commits;
    prepared_quorum =
        ground (arith, s.prepared_quorum, length-put-le m.message.node m slot.prepares);
    committed_quorum = s.committed_quorum;
  }

  pub add_commit-IsSlot :
      (slot : Slot) (m : SignedCommit)
      → IsSlot lib me slot
      → IsSlot lib me (record slot { commits = put m.message.node m slot.commits })
  unfolding is_prepared is_committed
  add_commit-IsSlot slot m s = record {
    paired = s.paired;
    prepares = s.prepares;
    commits = (
      put-Distinct m.message.node m slot.commits s.commits.0,
      All-put (λ e. e.1.message.node ≡ e.0) m.message.node m slot.commits refl s.commits.1,
    );
    prepared_quorum = s.prepared_quorum;
    committed_quorum =
        ground (arith, s.committed_quorum, length-put-le m.message.node m slot.commits);
  }

  -- So does a pre-prepare with its request.
  pub fill-IsSlot :
      (slot : Slot) (request : String) (digest : Digest) (signed : SignedPrePrepare)
      → IsSlot lib me slot
      → IsSlot lib me (record slot {
        request = some request;
        request_digest = digest;
        preprepare = some signed;
      })
  unfolding is_prepared is_committed
  fill-IsSlot slot request digest signed s = record {
    paired = refl;
    prepares = s.prepares;
    commits = s.commits;
    prepared_quorum = ground (arith, s.prepared_quorum);
    committed_quorum = s.committed_quorum;
  }

  pub mark_prepared-IsSlot :
      (slot : Slot)
      → IsSlot lib me slot
      → is_prepared lib me slot ≡ true
      → IsSlot lib me (record slot { prepared = true })
  unfolding is_prepared is_committed
  mark_prepared-IsSlot slot s p = record {
    paired = s.paired;
    prepares = s.prepares;
    commits = s.commits;
    prepared_quorum = inr p;
    committed_quorum = s.committed_quorum;
  }

  pub mark_committed-IsSlot :
      (slot : Slot)
      → IsSlot lib me slot
      → is_committed lib me slot ≡ true
      → IsSlot lib me (record slot { committed = true })
  unfolding is_prepared is_committed
  mark_committed-IsSlot slot s p = record {
    paired = s.paired;
    prepares = s.prepares;
    commits = s.commits;
    prepared_quorum = s.prepared_quorum;
    committed_quorum = inr p;
  }

  -- A vote of the node itself.
  pub own_prepare-IsSlot :
      (slot : Slot) (m : SignedPrepare)
      → m.message.node ≡ me.id
      → IsSlot lib me slot
      → IsSlot lib me (record slot { prepares = put me.id m slot.prepares })
  own_prepare-IsSlot slot m e s =
      subst (λ k. IsSlot lib me (record slot { prepares = put k m slot.prepares })) e
        (add_prepare-IsSlot slot m s)

  pub own_commit-IsSlot :
      (slot : Slot) (m : SignedCommit)
      → m.message.node ≡ me.id
      → IsSlot lib me slot
      → IsSlot lib me (record slot { commits = put me.id m slot.commits })
  own_commit-IsSlot slot m e s =
      subst (λ k. IsSlot lib me (record slot { commits = put k m slot.commits })) e
        (add_commit-IsSlot slot m s)
