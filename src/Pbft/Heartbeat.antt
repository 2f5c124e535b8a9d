-- ===== src/Pbft/Heartbeat.antt =====
-- The timer and the heartbeats of src/pbft/node.go. `none` ends the process: a nil pointer is read,
-- or a signature fails where the source logs a fatal error.
pub mod Rule
use distribute_pki.Base.{
  ℕ, ◌+◌, String, not, Option, none, some, [], ◌∷◌, map, ltb, ◌==◌, if◌then◌else◌, nat_eq,
  string_eq, ok, err, and_then, Map, get, put,
}
use distribute_pki.Pbft.SlotId.{SlotId, slot_id_eq}
use distribute_pki.Pbft.Messages.{NodeId, PrePrepare, NewView, SignedPpResponse, Slot}
use distribute_pki.Pbft.Library.{Library, Host}
use distribute_pki.Pbft.Signing.{
  sign_pre_prepare, sign_checkpoint_proof, sign_new_view, pp_response_signature_valid,
}
use distribute_pki.Pbft.Node.{
  Node, Payload, pre_prepare, checkpoint_proof, new_view, send_rpc, emit, is_primary,
}
use distribute_pki.Pbft.ViewChanges.{start_view_change}

-- PrePrepare{}
abbrev pub no_op : PrePrepare
no_op = record { number = record { view_number = 0; seq_number = 0 }; request_digest = 0 }

-- `*n.newView`, with the map of view changes that it shares.
unfoldable pub current_new_view : Node → NewView
current_new_view n =
    if n.shares_view_changes
    then record n.new_view { view_changes = n.view_change.messages }
    else n.new_view

unfoldable pub peer_sequence : NodeId → Node → ℕ
peer_sequence id n = elim (get id n.caught_up) [ none ↦ 0 | some seq ↦ seq ]

-- The pre-prepare of a slot of the log, sent again: it reads through the slot and its pointers.
unfoldable pub repeat_pre_prepare : SlotId → Node → Option Payload
repeat_pre_prepare id n = elim (get id n.log) [
  | none ↦ none
  | some slot ↦ elim slot.preprepare [
    | none ↦ none
    | some signed ↦ elim slot.request [
      | none ↦ none
      | some request ↦ some (pre_prepare (record { signed_message = signed; request = request }))
    ]
  ]
]

module _ (lib : Library) (me : Host lib) where
  unfoldable pub heartbeat_message : ℕ → Node → Option Payload
  heartbeat_message peer n =
      if n.sequence_number == peer
      then elim (sign_pre_prepare lib no_op me.entity) [
        | err e ↦ none
        | ok signed ↦ some (pre_prepare (record { signed_message = signed; request = "" }))
      ]
      else if ltb peer n.last_checkpoint.number.seq_number
      then elim (sign_checkpoint_proof lib (record { proof = n.last_checkpoint; node = me.id })
          me.entity) [ err e ↦ none | ok signed ↦ some (checkpoint_proof signed) ]
      else repeat_pre_prepare (record { view_number = n.view_number; seq_number = peer + 1 }) n

  -- The loop of `sendHeartbeat` over the peers; a new view that cannot be signed ends it.
  unfoldable pub heartbeats : Map NodeId String → Node → Option Node
  heartbeats [] n = some n
  heartbeats ((id, hostname) ∷ peers) n =
      if peer_sequence id n == 0
      then elim (sign_new_view lib (current_new_view n) me.entity) [
        | err e ↦ some n
        | ok signed ↦ heartbeats peers (emit (send_rpc id (new_view signed)) n)
      ]
      else and_then (heartbeat_message (peer_sequence id n) n)
          λ message. heartbeats peers (emit (send_rpc id message) n)

  unfoldable pub send_heartbeat : Node → Option Node
  send_heartbeat n = if not (is_primary lib me n) then some n else heartbeats me.peermap n

  unfoldable pub handle_heartbeat_timeout : Node → Option Node
  handle_heartbeat_timeout n =
      if n.view_change.in_progress
      then some n
      else if n.down
      then some n
      else if not (is_primary lib me n)
      then start_view_change lib me (n.view_number + 1) n
      else send_heartbeat n

  -- The callback of a repeated new view that a peer acknowledged.
  unfoldable pub new_view_acknowledged : NodeId → Node → Node
  new_view_acknowledged id n = record n { caught_up = put id 1 n.caught_up }

  -- The callback of a heartbeat that a peer answered.
  unfoldable pub heartbeat_answered : NodeId → SignedPpResponse → Node → Node
  heartbeat_answered id response n =
      elim (pp_response_signature_valid lib me.peer_entities me.peer_entity_map response) [
        | err e ↦ n
        | ok sender ↦
            if not (sender == id)
            then n
            else record n { caught_up = put id response.message.seq_number n.caught_up }
      ]
