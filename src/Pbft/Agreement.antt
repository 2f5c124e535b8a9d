-- ===== src/Pbft/Agreement.antt =====
-- Two backups of a view whose leader proposes one digest for a slot hold no other digest there.
use distribute_pki.Base.{
  ℕ, String, ◌≡◌, refl, ap, subst, ◌⊎◌, inl, inr, true, false, some, List, arith, nat_eq, string_eq,
  All, ok, Holds, get,
}
use distribute_pki.Pbft.SlotId.{SlotId, slot_id_eq}
use distribute_pki.Pbft.Messages.{NodeId, Digest, FullPrePrepare}
use distribute_pki.Pbft.Library.{Library, Host}
use distribute_pki.Pbft.Config.{leader_for}
use distribute_pki.Pbft.Signing.{pre_prepare_signature_valid}
use distribute_pki.Pbft.Node.{Node, init}
use distribute_pki.Pbft.NewViews.{is_leader_for}
use distribute_pki.Pbft.MainLoop.{Event, run}
use distribute_pki.Pbft.Contents.{digest_in, Everywhere}
use distribute_pki.Pbft.Digests.{IsDigestKept, IsAttested, run-init-Backed}
use distribute_pki.Pbft.Endorsed.Handlers.{checked_by_leader}

-- The node is a backup of a view, and knows its leader as a peer.
pub record IsBackup (lib : Library) (me : Host lib) (view : ℕ) (leader : NodeId) : Type 0 where
  pub leads : leader_for lib me.cluster view ≡ some leader
  pub met : (hostname : String) × (get leader me.peermap ≡ some hostname)
  pub other : is_leader_for lib me view ≡ false

module _ (lib : Library) (me : Host lib) (leader : NodeId) (id : SlotId) (digest : Digest) where
  -- If a pre-prepare for the slot checks as the leader's, it has the digest.
  abbrev pub Proposes : FullPrePrepare → Type 0
  Proposes full =
      pre_prepare_signature_valid lib me.peer_entities me.peer_entity_map full.signed_message
        ≡ ok leader
      → full.signed_message.message.number ≡ id
      → full.signed_message.message.request_digest ≡ digest

  -- The leader is honest about the slot: all its pre-prepares for it that come with an event, alone or
  -- in a new view, have the digest.
  abbrev pub IsHonest : Event → Type 0
  IsHonest = IsAttested Proposes

  abbrev Agrees : SlotId → Digest → Type 0
  Agrees j held = j ≡ id → (held ≡ 0) ⊎ (held ≡ digest)

  agreement_rules : IsBackup lib me id.view_number leader → IsDigestKept lib me Agrees Proposes
  agreement_rules k = record {
    absent = λ j e. inl refl;
    led = λ j held l s e.
        let mine : is_leader_for lib me id.view_number ≡ true =
          subst (λ (i : SlotId). is_leader_for lib me i.view_number ≡ true) e l in
        ground (arith, k.other);
    came = λ full n u p v w e same.
        let valid = checked_by_leader lib me full n v w e in
        let view = ap (λ (i : SlotId). i.view_number) same in
        inr (u (ground (arith, k.leads, k.met.1)) same);
  }

  pub digest_in-honest :
      (events : List Event) (n : Node)
      → IsBackup lib me id.view_number leader
      → All IsHonest events
      → run lib me events (init lib me) ≡ some n
      → (digest_in id n.log ≡ 0) ⊎ (digest_in id n.log ≡ digest)
  digest_in-honest events n k honest r =
      let kept : Everywhere (λ j request held. Agrees j held) n.log =
        subst (Holds (λ (m : Node). Everywhere (λ j request held. Agrees j held) m.log)) r
          (run-init-Backed lib me Agrees Proposes (agreement_rules k) events honest) in
      kept.at id refl

-- However the messages, timers and client requests of two backups of a view come, view changes and new
-- views included: where the two have both filled in a digest for a slot of the view, it is the same
-- digest, if all pre-prepares for the slot that come to the two and check as the leader's have one
-- digest. The leader of the view is a peer of both.
pub digest_in-agrees :
    (lib : Library) (a b : Host lib) (events_a events_b : List Event) (n k : Node) (id : SlotId)
    (leader : NodeId) (digest : Digest)
    → IsBackup lib a id.view_number leader
    → IsBackup lib b id.view_number leader
    → All (IsHonest lib a leader id digest) events_a
    → All (IsHonest lib b leader id digest) events_b
    → run lib a events_a (init lib a) ≡ some n
    → run lib b events_b (init lib b) ≡ some k
    → (digest_in id n.log ≡ 0)
      ⊎ (digest_in id k.log ≡ 0)
      ⊎ (digest_in id n.log ≡ digest_in id k.log)
digest_in-agrees lib a b events_a events_b n k id leader digest ka kb ha hb ra rb =
    let p = digest_in-honest lib a leader id digest events_a n ka ha ra in
    let q = digest_in-honest lib b leader id digest events_b k kb hb rb in ground (arith, p, q)
