-- ===== src/Pbft/Normal/Requests.antt =====
-- `handleClientRequest` of src/pbft/node.go, and what the other handlers share with it.
use distribute_pki.Base.{
  ℕ, ◌+◌, ◌%◌, String, true, false, Option, none, some, ltb, ◌==◌, if◌then◌else◌, is_some, nat_eq,
  string_eq, Result, ok, err, get, put,
}
use distribute_pki.Pbft.SlotId.{SlotId, slot_id_eq}
use distribute_pki.Pbft.Messages.{Digest, SignedPrePrepare, Slot}
use distribute_pki.Pbft.Library.{Library, Host}
use distribute_pki.Pbft.Signing.{sign_pre_prepare}
use distribute_pki.Pbft.Node.{
  Node, broadcast, committed, snapshot_requested, Timer, unset, stopped, running,
  checkpoint_interval, emit, empty_slot, is_primary,
}
use distribute_pki.Pbft.Node.{client_request, pre_prepare}

-- util.GenerateDigest, which never fails
unfoldable pub generate_digest : Library → String → Result Digest
generate_digest lib s = ok (lib.sha256 s)

-- `tryCheckpoint`: at every hundredth sequence number a snapshot is asked for.
unfoldable pub try_checkpoint : Node → Node
try_checkpoint n =
    if n.sequence_number % checkpoint_interval == 0
    then emit
        (snapshot_requested
          (record { view_number = n.view_number; seq_number = n.sequence_number }))
        n
    else n

-- A timer's `Reset`; on a nil timer it panics.
unfoldable pub reset_timer : ℕ → Timer → Option Timer
reset_timer d unset = none
reset_timer d stopped = some (running d)
reset_timer d (running _) = some (running d)

-- The slot becomes committed: its request goes to the client, executed or nil.
unfoldable pub deliver : SlotId → Slot → Node → Node
deliver number slot n = try_checkpoint (
    emit (committed slot.request) (record n {
      sequence_number =
          (if ltb n.sequence_number number.seq_number
            then number.seq_number
            else n.sequence_number);
      log = put number (record slot { committed = true }) n.log;
    }))

-- n.log[id] = &Slot{...}, with a request, its digest and its pre-prepare, and no votes.
unfoldable pub store_pre_prepare : SlotId → String → Digest → SignedPrePrepare → Node → Node
store_pre_prepare id request digest signed n = record n {
  log =
      put id
        (record empty_slot {
          request = some request;
          request_digest = digest;
          preprepare = some signed;
        })
        n.log;
}

module _ (lib : Library) (me : Host lib) where
  -- The messages that the node signs.
  abbrev pub issued_id : Node → SlotId
  issued_id n = record { view_number = n.view_number; seq_number = n.issued_sequence_number + 1 }

  -- The primary's part of `handleClientRequest`, once the request counts as seen.
  unfoldable pub issue : String → Digest → Node → Node
  issue request digest n =
      let id : SlotId = issued_id n in
      let n' : Node = record n { issued_sequence_number = n.issued_sequence_number + 1 } in
      elim (sign_pre_prepare lib (record { number = id; request_digest = digest }) me.entity) [
        | err e ↦ n'
        | ok signed ↦
            emit (broadcast (pre_prepare (record { signed_message = signed; request = request })))
              (store_pre_prepare id request digest signed n')
      ]

  -- `handleClientRequest`. The pointer is not nil: every caller passes the address of a string.
  unfoldable pub handle_client_request : String → Node → Node
  handle_client_request request n =
      if n.view_change.in_progress then n else elim (generate_digest lib request) [
        | err e ↦ n
        | ok digest ↦
            if is_some (get digest n.requests)
            then n
            else let n' : Node = record n {
              requests = put digest (record { committed = false }) n.requests;
            } in
              if is_primary lib me n
              then issue request digest n'
              else emit (broadcast (client_request request)) n'
      ]
