-- ===== src/Pbft/Normal/PrePrepares.antt =====
-- `handlePrePrepare` of src/pbft/node.go. `none` is a panic; a log line has no effect.
use distribute_pki.Base.{
  ℕ, ◌+◌, ◌*◌, Bool, not, ◌&&◌, ◌||◌, Option, some, ltb, leb, ◌==◌, if◌then◌else◌, is_some, nat_eq,
  string_eq, ok, err, and_then, put,
}
use distribute_pki.Pbft.SlotId.{SlotId, slot_id_eq}
use distribute_pki.Pbft.Messages.{NodeId, PrePrepare, FullPrePrepare, Prepare, Slot}
use distribute_pki.Pbft.Library.{Library, Host}
use distribute_pki.Pbft.Signing.{sign_prepare, pre_prepare_signature_valid}
use distribute_pki.Pbft.Node.{
  Node, broadcast, checkpoint_interval, emit, ensure_mapping, is_primary, get_primary, get_timeout,
}
use distribute_pki.Pbft.Node.{prepare}
use distribute_pki.Pbft.Normal.Requests.{generate_digest, reset_timer}

module _ (lib : Library) (me : Host lib) where
  abbrev pub prepare_for : PrePrepare → Prepare
  prepare_for m = record { number = m.number; request_digest = m.request_digest; node = me.id }

  -- Tests 1 and 2 of `handlePrePrepare`: the view is this one, and the sequence number lies between
  -- the water marks.
  unfoldable pub in_window : SlotId → Node → Bool
  in_window number n =
      (number.view_number == n.view_number)
      && (leb number.seq_number (n.last_checkpoint.number.seq_number + checkpoint_interval * 3)
          && ltb n.last_checkpoint.number.seq_number number.seq_number)

  -- The message of an empty heartbeat: every field has its zero value.
  unfoldable pub is_no_op : PrePrepare → Bool
  is_no_op m =
      (m.number.view_number == 0) && ((m.number.seq_number == 0) && (m.request_digest == 0))

  -- The end of `handlePrePrepare`, at a slot that holds no request yet.
  unfoldable pub accept_pre_prepare : FullPrePrepare → Slot → Node → Node
  accept_pre_prepare full slot n =
      let m : PrePrepare = full.signed_message.message in
      let issued : ℕ =
        (if ltb n.issued_sequence_number m.number.seq_number
          then m.number.seq_number
          else n.issued_sequence_number) in
      let slot' : Slot = record slot {
        request = some full.request;
        request_digest = m.request_digest;
        preprepare = some full.signed_message;
      } in
      let n' : Node = record n {
        issued_sequence_number = issued;
        log = put m.number slot' n.log;
      } in
      elim (sign_prepare lib (prepare_for m) me.entity) [
        | err e ↦ n'
        | ok signed ↦ emit (broadcast (prepare signed)) (record n' {
          log = put m.number (record slot' { prepares = put me.id signed slot'.prepares }) n'.log;
        })
      ]

  -- Test 4 of `handlePrePrepare`: the slot holds no request yet.
  unfoldable pub fill_slot : FullPrePrepare → Slot → Node → Node
  fill_slot full slot n = if is_some slot.request then n else accept_pre_prepare full slot n

  unfoldable pub place_pre_prepare : FullPrePrepare → Node → Node
  place_pre_prepare full n =
      let (slot, n') = ensure_mapping full.signed_message.message.number n in fill_slot full slot n'

  -- Tests 1 to 4 of `handlePrePrepare`, after the timer is reset.
  unfoldable pub check_pre_prepare : FullPrePrepare → Node → Node
  check_pre_prepare full n =
      let m : PrePrepare = full.signed_message.message in
      if is_no_op m
      then n
      else if not (in_window m.number n)
      then n
      else elim (generate_digest lib full.request) [
        | err e ↦ n
        | ok digest ↦ if not (m.request_digest == digest) then n else place_pre_prepare full n
      ]

  -- Is the sender of a pre-prepare for the current view not the primary?
  unfoldable pub wrong_primary : FullPrePrepare → NodeId → Node → Bool
  wrong_primary full sender n =
      (full.signed_message.message.number.view_number == n.view_number)
      && not (sender == (get_primary lib me n).0)

  unfoldable pub handle_pre_prepare : FullPrePrepare → Node → Option Node
  handle_pre_prepare full n =
      if n.view_change.in_progress || is_primary lib me n
      then some n
      else elim (pre_prepare_signature_valid lib me.peer_entities me.peer_entity_map
          full.signed_message) [
            | err e ↦ some n
            | ok sender ↦
                if wrong_primary full sender n
                then some n
                else and_then (reset_timer (get_timeout lib me n) n.timeout_timer)
                    λ t. some (check_pre_prepare full (record n { timeout_timer = t }))
          ]
