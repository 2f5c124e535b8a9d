-- ===== src/Pbft/Voting.antt =====
-- A backup from the pre-prepare over the prepares of a quorum to its vote to commit.
use distribute_pki.Base.{
  ◌≤◌, String, ◌≡◌, sym, ap, ◌∙◌, subst, true, none, some, List, ◌∷◌, arith, is_some, nat_eq,
  string_eq, length, All, All-map, ok, put, get-put_self,
}
use distribute_pki.Pbft.SlotId.{SlotId, slot_id_eq}
use distribute_pki.Pbft.Messages.{
  PrePrepare, FullPrePrepare, SignedPrePrepare, SignedPrepare, SignedCommit, Slot,
}
use distribute_pki.Pbft.Library.{Library, SignaturesCheck, Host}
use distribute_pki.Pbft.Signing.{sign_prepare, sign_pre_prepare, sign_commit}
use distribute_pki.Pbft.Signatures.{message-sign_pre_prepare}
use distribute_pki.Pbft.Node.{
  Node, Effect, running, broadcast, commit, get_timeout, ensure_mapping, two_f,
}
use distribute_pki.Pbft.Node.{prepare}
use distribute_pki.Pbft.Normal.{
  prepare_for, issued_id, accept_pre_prepare, fill_slot, place_pre_prepare, handle_pre_prepare,
}
use distribute_pki.Pbft.Commits.{ensure_mapping-sent}
use distribute_pki.Pbft.Votes.{IsPeer, slot_at, slot_at-ensure_mapping}
use distribute_pki.Pbft.Deliveries.{ensure_mapping-rest}
use distribute_pki.Pbft.Placement.{IsLeading, IsFollowing, filled_slot}
use distribute_pki.Pbft.Adoption.{handle_pre_prepare-places}
use distribute_pki.Pbft.Preparations.{
  collect_prepares, handle_prepares, vote_for, signed-IsPrepareFor, handle_prepares-votes,
}

-- A backup that takes part: its prepare, the prepares that it gets and its vote to commit.
pub record Voter (lib : Library) : Type 0 where
  pub host : Host lib
  pub state : Node
  pub own : SignedPrepare
  pub first : SignedPrepare
  pub others : List SignedPrepare
  pub vote : SignedCommit

module _ (lib : Library) where
  -- What a backup has of a slot once it has placed a pre-prepare there.
  record Proposed (number : SlotId) (own : SignedPrepare) (me : Host lib) (n k : Node)
      : Type 0 where
    change : k.view_change ≡ n.view_change
    votes : (slot_at number k).prepares ≡ put me.id own (slot_at number n).prepares
    proposal : is_some (slot_at number k).preprepare ≡ true
    sends : k.sent ≡ broadcast (prepare own) ∷ n.sent

  place_pre_prepare-Proposed :
      (me : Host lib) (full : FullPrePrepare) (n : Node) {own : SignedPrepare}
      → (slot_at full.signed_message.message.number n).request ≡ none
      → sign_prepare lib (prepare_for lib me full.signed_message.message) me.entity ≡ ok own
      → Proposed full.signed_message.message.number own me n (place_pre_prepare lib me full n)
  unfolding place_pre_prepare fill_slot accept_pre_prepare
  place_pre_prepare-Proposed me full n {own} empty e =
      let number : SlotId = full.signed_message.message.number in
      let (slot, n') = ensure_mapping number n in
      let same = slot_at-ensure_mapping number n in
      let sent = ensure_mapping-sent number n in
      let (kept, change, last) = ensure_mapping-rest number n in
      let voted : Slot = record (filled_slot lib full slot) {
        prepares = put me.id own slot.prepares;
      } in
      let put_self = get-put_self number voted (put number (filled_slot lib full slot) n'.log) in
      record {
        change = ground (arith, same, empty, e, change);
        votes = ground (arith, same, empty, e, put_self);
        proposal = ground (arith, same, empty, e, put_self);
        sends = ground (arith, same, empty, e, sent);
      }

  -- A backup can take the primary's proposal, it can sign, and it gets the prepares that peers signed
  -- for the proposal, of a quorum with its own.
  pub record IsVoting (leader : Host lib) (request : String) (l : Node) (v : Voter lib)
      : Type 0 where
    pub follows : IsFollowing lib leader v.host l v.state
    pub own_signed :
        sign_prepare lib
          (prepare_for lib v.host
            (record { number = issued_id lib leader l; request_digest = lib.sha256 request }))
          v.host.entity
        ≡ ok v.own
    pub vote_signed :
        sign_commit lib
          (vote_for lib v.host (issued_id lib leader l) (lib.sha256 request))
          v.host.entity
        ≡ ok v.vote
    pub come :
        All
          (λ p.
            (peer : Host lib) × IsPeer lib v.host peer.entity peer.id
            × (sign_prepare lib
                  (prepare_for lib peer (record {
                    number = issued_id lib leader l;
                    request_digest = lib.sha256 request;
                  }))
                  peer.entity
                ≡ ok p))
          (v.first ∷ v.others)
    pub enough :
        two_f lib v.host
        ≤ length (
            collect_prepares
              (v.first ∷ v.others)
              (put v.host.id v.own (slot_at (issued_id lib leader l) v.state).prepares))

  -- The backup takes the pre-prepare and broadcasts its prepare, and once the prepares came, its vote.
  abbrev pub Votes : FullPrePrepare → Voter lib → Type 0
  Votes full v =
      (k : Node) × (earlier : List Effect) × (handle_pre_prepare lib v.host full v.state ≡ some k)
      × (k.sent ≡ broadcast (prepare v.own) ∷ v.state.sent)
      × ((handle_prepares lib v.host (v.first ∷ v.others) k).sent
          ≡ broadcast (commit v.vote) ∷ earlier)

  pub handle_pre_prepare-Votes :
      (leader : Host lib) (request : String) (l : Node) (v : Voter lib) {signed : SignedPrePrepare}
      → SignaturesCheck lib
      → IsLeading lib leader request l
      → sign_pre_prepare lib
          (record { number = issued_id lib leader l; request_digest = lib.sha256 request })
          leader.entity
        ≡ ok signed
      → IsVoting leader request l v
      → Votes (record { signed_message = signed; request = request }) v
  handle_pre_prepare-Votes leader request l v {signed} check lead e h =
      let full : FullPrePrepare = record { signed_message = signed; request = request } in
      let timed : Node = record v.state {
        timeout_timer = running (get_timeout lib v.host v.state);
      } in
      let number : SlotId = issued_id lib leader l in
      let m : PrePrepare = record { number = number; request_digest = lib.sha256 request } in
      let same : signed.message ≡ m = message-sign_pre_prepare lib m leader.entity e in
      let k : Node = place_pre_prepare lib v.host full timed in
      let p : Proposed number v.own v.host timed k =
        subst (λ (j : PrePrepare). Proposed j.number v.own v.host timed k) same
          (place_pre_prepare-Proposed v.host full timed
            (ap (λ (j : PrePrepare). (slot_at j.number v.state).request) same ∙ h.follows.empty)
            (ap (λ j. sign_prepare lib (prepare_for lib v.host j) v.host.entity) same
              ∙ h.own_signed)) in
      let (earlier, votes, prepared) =
        handle_prepares-votes lib v.host number (lib.sha256 request) v.first v.others k
          (ap (λ c. c.in_progress) p.change ∙ h.follows.idle) p.proposal h.vote_signed
          (All-map (v.first ∷ v.others) (λ q w. signed-IsPrepareFor lib v.host w.0 m check w.1 w.2)
            h.come)
          (subst (λ w. two_f lib v.host ≤ length (collect_prepares (v.first ∷ v.others) w))
            (sym p.votes) h.enough) in
      (
        k,
        earlier,
        handle_pre_prepare-places lib leader v.host request l v.state check lead h.follows e,
        p.sends,
        votes,
      )
