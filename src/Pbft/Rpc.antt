-- ===== src/Pbft/Rpc.antt =====
-- The calls that a node takes from its peers, of src/pbft/node.go, view_change.go and checkpoint.go:
-- each is refused by a node that is down, and otherwise queued for the main loop. The receivers are
-- copies of the node: an answer carries the sequence number from before the message is handled.
use distribute_pki.Base.{◌>>=◌, if◌then◌else◌, nat_eq, string_eq, Result, ok, err}
use distribute_pki.Pbft.Messages.{SignedPpResponse}
use distribute_pki.Pbft.Library.{Library, Host}
use distribute_pki.Pbft.Signing.{get_signature}
use distribute_pki.Pbft.Node.{
  Node, Payload, client_request, pre_prepare, prepare, commit, checkpoint, checkpoint_proof,
  view_change, new_view,
}
use distribute_pki.Pbft.MainLoop.{Event}
use distribute_pki.Pbft.MainLoop

-- The channel that a call writes to.
abbrev pub queued : Payload → Event
queued (client_request r) = MainLoop.Event.requested r
queued (pre_prepare m) = MainLoop.Event.pre_prepared m
queued (prepare m) = MainLoop.Event.prepared m
queued (commit m) = MainLoop.Event.committed m
queued (checkpoint m) = MainLoop.Event.checkpointed m
queued (checkpoint_proof m) = MainLoop.Event.checkpoint_proved m
queued (view_change m) = MainLoop.Event.view_changed m
queued (new_view m) = MainLoop.Event.new_viewed m

unfoldable pub receive : Payload → Node → Result Event
receive call n = if n.down then err "I'm down" else ok (queued call)

-- The answer to a `PrePrepare` or a `CheckpointProof`.
unfoldable pub answer : (lib : Library) → Host lib → Node → Result SignedPpResponse
answer lib me n = if n.down then err "I'm down" else do
  signature ← get_signature lib (record { seq_number = n.sequence_number }) me.entity
  ok (record { message = record { seq_number = n.sequence_number }; signature = signature })
