-- ===== src/Server/KeyNode.antt =====
-- src/distributepki/keynode.go: the key server. What goes to the consensus node, a proposal or a
-- snapshot, is put in front of a list; a pending request is the list of the responses in its channel,
-- the latest first. The Success field of a reply is set exactly where the result is ok.
use distribute_pki.Base.{
  String, Bool, false, not, Option, none, some, List, [], ◌∷◌, ◌==◌, if◌then◌else◌, is_some, nat_eq,
  string_eq, Result, ok, err, and_then, Map, get, put,
}
use distribute_pki.Pbft.SlotId.{SlotId}
use distribute_pki.Pbft.Messages.{Digest}
use distribute_pki.Server.Keystore.{
  Key, Snapshot, Keystore, create_key, update_key, lookup_key, KeysJson, get_snapshot,
  apply_snapshot,
}
use distribute_pki.Server.ClientApi.{
  Create, Update, Lookup, Op, a_create, an_update, a_lookup, another_op, KeyOperation, op_create,
  op_update, op_lookup, ClientLibrary, digest_valid, create_signature_valid, update_signature_valid,
}

pub record KeyNode : Type 0 where
  pub store : Keystore
  pub pending : Map Digest (List String)
  pub proposed : List String
  pub snapshot_replies : List (SlotId × Snapshot)

-- The type assertions on the operation.
abbrev pub as_create : Op → Option Create
as_create (a_create c) = some c
as_create (an_update u) = none
as_create (a_lookup l) = none
as_create another_op = none

abbrev pub as_update : Op → Option Update
as_update (a_create c) = none
as_update (an_update u) = some u
as_update (a_lookup l) = none
as_update another_op = none

abbrev pub as_lookup : Op → Option Lookup
as_lookup (a_create c) = none
as_lookup (an_update u) = none
as_lookup (a_lookup l) = some l
as_lookup another_op = none

unfoldable pub respond_pending_request : Digest → String → KeyNode → KeyNode
respond_pending_request digest response kn = elim (get digest kn.pending) [
  | none ↦ kn
  | some responses ↦ record kn { pending = put digest (response ∷ responses) kn.pending }
]

module _ (lib : ClientLibrary) where
  -- The end of `CreateKey` and of `UpdateKey`: the operation is encoded and proposed.
  unfoldable pub propose : KeyOperation → KeyNode → Result (Unit {0}) × KeyNode
  propose args kn = elim (lib.gob_encode args) [
    | err e ↦ (err e, kn)
    | ok text ↦ (ok tt, record kn { proposed = text ∷ kn.proposed })
  ]

  unfoldable pub propose_create :
      lib.Ring → KeyOperation → Create → KeyNode → Result (Unit {0}) × KeyNode
  propose_create keyring args create kn =
      if not (create_signature_valid lib keyring create)
      then (err "Signature is invalid (CreateKey)", kn)
      else if (lookup_key create.alias kn.store).0
      then (err "Key already exists for user (CreateKey)", kn)
      else propose args kn

  unfoldable pub guard_create : lib.Ring → KeyOperation → KeyNode → Result (Unit {0}) × KeyNode
  guard_create keyring args kn =
      if not (args.op_code == op_create)
      then (err "Incorrect opcode value (CreateKey)", kn)
      else elim (as_create args.op) [
        | none ↦ (err "Operation not a Create (CreateKey)", kn)
        | some create ↦ propose_create keyring args create kn
      ]

  -- `CreateKey`; `none` is the end of the process, where the digest cannot be computed.
  unfoldable pub request_create :
      lib.Ring → KeyOperation → KeyNode → Option (Result (Unit {0}) × KeyNode)
  request_create keyring args kn = and_then (digest_valid lib args) λ valid. some (
      if not valid
      then (err "Operation digest is invalid (CreateKey)", kn)
      else guard_create keyring args kn)

  unfoldable pub propose_update : KeyOperation → Update → KeyNode → Result (Unit {0}) × KeyNode
  propose_update args update kn =
      let (found, key) = lookup_key update.alias kn.store in
      if not found
      then (err "Key does not exist for user (UpdateKey)", kn)
      else if not (update_signature_valid lib key update)
      then (err "Update message not signed by client!", kn)
      else propose args kn

  unfoldable pub guard_update : KeyOperation → KeyNode → Result (Unit {0}) × KeyNode
  guard_update args kn =
      if not (args.op_code == op_update)
      then (err "Incorrect opcode value (UpdateKey)", kn)
      else elim (as_update args.op) [
        | none ↦ (err "Operation not an Update (UpdateKey)", kn)
        | some update ↦ propose_update args update kn
      ]

  -- `UpdateKey`
  unfoldable pub request_update : KeyOperation → KeyNode → Option (Result (Unit {0}) × KeyNode)
  request_update args kn = and_then (digest_valid lib args) λ valid. some (
      if not valid
      then (err "Operation digest is invalid (UpdateKey)", kn)
      else guard_update args kn)

  -- `LookupKey`
  unfoldable pub request_lookup : KeyOperation → KeyNode → Option (Bool × Key)
  request_lookup args kn = and_then (digest_valid lib args) λ valid. some (
      if not valid
      then (false, "")
      else if not (args.op_code == op_lookup)
      then (false, "")
      else elim (as_lookup args.op) [
        | none ↦ (false, "")
        | some lookup ↦ lookup_key lookup.alias kn.store
      ])

  -- The switch of `handleCommit` on the operation's code.
  unfoldable pub apply_operation : KeyOperation → KeyNode → KeyNode
  apply_operation key_op kn =
      if key_op.op_code == op_create
      then elim (as_create key_op.op) [
        | none ↦ respond_pending_request key_op.digest "Operation not a Create (handleCommit)" kn
        | some create ↦
            respond_pending_request key_op.digest ""
              (record kn { store = create_key create.alias create.key kn.store })
      ]
      else if key_op.op_code == op_update
      then elim (as_update key_op.op) [
        | none ↦ respond_pending_request key_op.digest "Operation not a Update (handleCommit)" kn
        | some update ↦
            respond_pending_request key_op.digest ""
              (record kn { store = update_key update.alias update.key kn.store })
      ]
      else respond_pending_request key_op.digest "" kn

  -- `handleCommit`
  unfoldable pub apply_commit : Option String → KeyNode → KeyNode
  apply_commit none kn = kn
  apply_commit (some operation) kn =
      let (key_op, outcome) = lib.gob_decode operation in
      elim outcome [
        | err e ↦ respond_pending_request key_op.digest e kn
        | ok u ↦ apply_operation key_op kn
      ]

  unfoldable pub apply_commits : List (Option String) → KeyNode → KeyNode
  apply_commits [] kn = kn
  apply_commits (operation ∷ operations) kn = apply_commits operations (apply_commit operation kn)

  -- Does `handleCommit` assign into the store's map?
  unfoldable pub assigns : Option String → Bool
  assigns none = false
  assigns (some operation) =
      let (key_op, outcome) = lib.gob_decode operation in
      elim outcome [
        | err e ↦ false
        | ok u ↦
            if key_op.op_code == op_create
            then is_some (as_create key_op.op)
            else if key_op.op_code == op_update
            then is_some (as_update key_op.op)
            else false
      ]

-- A key server whose store has a map, or a nil one: then the store of the node here is not looked at.
pub data Server : Type 0 where
  mapped : KeyNode → Server
  unmapped : KeyNode → Server

-- What the handlers that only read the store see: a nil map reads as an empty one.
abbrev pub node_of : Server → KeyNode
node_of (mapped kn) = kn
node_of (unmapped kn) = record kn { store = record { keys = [] } }

abbrev pub store_of : Server → Option Keystore
store_of (mapped kn) = some kn.store
store_of (unmapped kn) = none

abbrev pub with_store : KeyNode → Option Keystore → Server
with_store kn none = unmapped kn
with_store kn (some store) = mapped (record kn { store = store })

-- `SnapshotReply`, called with a nil slice where the store cannot be written as JSON.
abbrev pub reply_snapshot : SlotId → Result Snapshot → KeyNode → KeyNode
reply_snapshot slot snapshot kn = elim snapshot [
  | err e ↦ record kn { snapshot_replies = (slot, []) ∷ kn.snapshot_replies }
  | ok b ↦ record kn { snapshot_replies = (slot, b) ∷ kn.snapshot_replies }
]

unfoldable pub handle_snapshot_request : KeysJson → SlotId → Server → Server
handle_snapshot_request json slot (mapped kn) =
    mapped (reply_snapshot slot (get_snapshot json (some kn.store)) kn)
handle_snapshot_request json slot (unmapped kn) =
    unmapped (reply_snapshot slot (get_snapshot json none) kn)

unfoldable pub handle_snapshot : KeysJson → Snapshot → Server → Server
handle_snapshot json snapshot server =
    with_store (node_of server) (apply_snapshot json snapshot (store_of server)).1

-- `handleCommit` on either server; `none` is the end of the process, by an assignment into a nil map.
unfoldable pub handle_commit_sent : ClientLibrary → Option String → Server → Option Server
handle_commit_sent lib operation (mapped kn) = some (mapped (apply_commit lib operation kn))
handle_commit_sent lib operation (unmapped kn) =
    if assigns lib operation then none else some (unmapped (apply_commit lib operation kn))

-- What the consensus node sends the key server.
pub data Output : Type 0 where
  commit_sent : Option String → Output
  snapshot_asked : SlotId → Output
  snapshot_sent : Snapshot → Output

unfoldable pub handle_output : ClientLibrary → KeysJson → Output → Server → Option Server
handle_output lib json (commit_sent operation) server = handle_commit_sent lib operation server
handle_output lib json (snapshot_asked slot) server =
    some (handle_snapshot_request json slot server)
handle_output lib json (snapshot_sent snapshot) server = some (handle_snapshot json snapshot server)

-- `handleUpdates`, on what comes over the channels.
unfoldable pub handle_updates : ClientLibrary → KeysJson → List Output → Server → Option Server
handle_updates lib json [] server = some server
handle_updates lib json (output ∷ outputs) server =
    and_then (handle_output lib json output server) (handle_updates lib json outputs)
