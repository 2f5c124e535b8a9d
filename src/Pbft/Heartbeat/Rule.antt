-- ===== src/Pbft/Heartbeat/Rule.antt =====
-- The rule for the loop over the peers: what sending keeps, the loop keeps.
use distribute_pki.Base.{
  String, inl, inr, [], ◌∷◌, arith, ◌==◌, if-cases, nat_eq, string_eq, Result-cases, Holds,
  Holds-any, and_then-Holds, Map,
}
use distribute_pki.Pbft.Messages.{NodeId}
use distribute_pki.Pbft.Library.{Library, Host}
use distribute_pki.Pbft.Signing.{sign_new_view}
use distribute_pki.Pbft.Node.{Node, Effect, send_rpc, new_view, emit}
use distribute_pki.Pbft.Heartbeat.{
  current_new_view, peer_sequence, heartbeat_message, heartbeats, send_heartbeat,
}

module _ {ℓ} (lib : Library) (me : Host lib) (P : Node → Type ℓ)
    (keep : (e : Effect) (n : Node) → P n → P (emit e n)) where
  heartbeats-Holds :
      (peers : Map NodeId String) (n : Node) → P n → Holds P (heartbeats lib me peers n)
  unfolding heartbeats
  heartbeats-Holds [] n h = h
  heartbeats-Holds ((id, hostname) ∷ peers) n h =
      if-cases (Holds P) (peer_sequence id n == 0) _ _
        (λ _. elim (Result-cases (sign_new_view lib (current_new_view n) me.entity)) [
          | inl (x, e) ↦ rw e h
          | inr (signed, e) ↦
              rw e (heartbeats-Holds peers _ (keep (send_rpc id (new_view signed)) n h))
        ])
        (λ _.
          and_then-Holds (λ _. Unit {0}) P (heartbeat_message lib me (peer_sequence id n) n) _
            (Holds-any _) (λ m _. heartbeats-Holds peers _ (keep (send_rpc id m) n h)))

  pub send_heartbeat-Holds : (n : Node) → P n → Holds P (send_heartbeat lib me n)
  unfolding send_heartbeat
  send_heartbeat-Holds n h = ground (arith, heartbeats-Holds me.peermap n h)
