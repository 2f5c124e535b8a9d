-- ===== src/Pbft/Answers.antt =====
-- Nodes that are down, and what a primary learns from an answer to its heartbeat.
use distribute_pki.Base.{
  err, ◌≡◌, inl, inr, true, some, arith, ◌==◌, if◌then◌else◌, nat_eq, string_eq, Result-cases, ok,
  get-put,
}
use distribute_pki.Pbft.Messages.{NodeId, PpResponse, SignedPpResponse}
use distribute_pki.Pbft.Library.{Library, SignaturesCheck, Host}
use distribute_pki.Pbft.Signing.{signer_id, get_signature, pp_response_signature_valid}
use distribute_pki.Pbft.Node.{Node, Payload}
use distribute_pki.Pbft.ViewChanges.{start_view_change}
use distribute_pki.Pbft.Heartbeat.{handle_heartbeat_timeout, peer_sequence, heartbeat_answered}
use distribute_pki.Pbft.MainLoop.{request_timed_out, timer_expired, handle_event, step}
use distribute_pki.Pbft.Views.{IsReady}
use distribute_pki.Pbft.Rpc.{receive, answer}
use distribute_pki.Pbft.Votes.{IsPeer}

module _ (lib : Library) (me : Host lib) where
  -- A node that is down refuses every call of its peers, and an expired timer or a request that timed
  -- out leaves it as it is.
  pub step-down :
      (call : Payload) (n : Node)
      → IsReady lib me n
      → n.down ≡ true
      → (receive call n ≡ err "I'm down")
        × (step lib me timer_expired n ≡ some n)
        × (step lib me request_timed_out n ≡ some n)
  unfolding receive step handle_event handle_heartbeat_timeout start_view_change
  step-down call n r d = (ground arith, ground (arith, r.timer), ground (arith, r.timer))

  -- When a known peer answers a heartbeat, the primary then has the peer's sequence number for it, and
  -- for every other peer what it had.
  pub heartbeat_answered-answer :
      (peer : Host lib) (there here : Node) (j : NodeId) {response : SignedPpResponse}
      → SignaturesCheck lib
      → IsPeer lib me peer.entity peer.id
      → answer lib peer there ≡ ok response
      → peer_sequence j (heartbeat_answered lib me peer.id response here)
        ≡ (if peer.id == j then there.sequence_number else peer_sequence j here)
  unfolding answer heartbeat_answered peer_sequence get_signature pp_response_signature_valid
      signer_id
  heartbeat_answered-answer peer there here j {response} check known h =
      let m : PpResponse = record { seq_number = there.sequence_number } in
      elim (Result-cases (lib.encode_pp_response m)) [
        | inl (e, p) ↦ ground arith
        | inr (text, p) ↦ elim (Result-cases (lib.detach_sign peer.entity text)) [
          | inl (e, q) ↦ ground arith
          | inr (signature, q) ↦ ground (
            arith,
            check peer.entity me.peer_entities text signature known.in_ring q,
            known.named,
            get-put peer.id j there.sequence_number here.caught_up,
          )
        ]
      ]
