-- ===== src/Pbft/Node.antt =====
-- The node of src/pbft/node.go: its mutable state, what it sends, and its helpers. The immutable
-- part is `Host`; channels to the client and calls to peers are the `sent` list, the latest first.
use distribute_pki.Base.{
  ℕ, ◌*◌, ◌/◌, String, Bool, false, ◌&&◌, Option, none, some, List, [], ◌∷◌, Map, get, put, length,
  nat_eq, ◌==◌, leb, if◌then◌else◌, is_some,
}
use distribute_pki.Pbft.SlotId.{SlotId, slot_id_eq}
use distribute_pki.Pbft.Messages.{
  NodeId, Digest, Bytes, FullPrePrepare, SignedPrepare, SignedCommit, CheckpointProof,
  SignedCheckpoint, SignedCheckpointProof, SignedViewChange, NewView, SignedNewView, Slot,
}
use distribute_pki.Pbft.Library.{Library, Host}
use distribute_pki.Pbft.Config.{leader_for}

-- The argument of a call to a peer; the constructor stands for the name of the remote method.
pub data Payload : Type 0 where
  client_request : String → Payload
  pre_prepare : FullPrePrepare → Payload
  prepare : SignedPrepare → Payload
  commit : SignedCommit → Payload
  checkpoint : SignedCheckpoint → Payload
  checkpoint_proof : SignedCheckpointProof → Payload
  view_change : SignedViewChange → Payload
  new_view : SignedNewView → Payload

pub data Effect : Type 0 where
  broadcast : Payload → Effect
  send_rpc : NodeId → Payload → Effect
  committed : Option String → Effect
  snapshot_requested : SlotId → Effect
  snapshotted : Bytes → Effect

-- A *time.Timer or *time.Ticker: nil, stopped, or running with a period in nanoseconds.
pub data Timer : Type 0 where
  unset : Timer
  stopped : Timer
  running : ℕ → Timer

pub record RequestInfo : Type 0 where
  pub committed : Bool

pub record ViewChangeInfo : Type 0 where
  pub messages : Map NodeId SignedViewChange
  pub in_progress : Bool
  pub view_number : ℕ

-- `new_view` holds the message that the leader repeats. Its map of view changes is the map
-- `view_change.messages` itself, once the leader has built one: `shares_view_changes`.
pub record Node : Type 0 where
  pub requests : Map Digest RequestInfo
  pub log : Map SlotId Slot
  pub view_number : ℕ
  pub sequence_number : ℕ
  pub issued_sequence_number : ℕ
  pub view_change : ViewChangeInfo
  pub last_checkpoint : CheckpointProof
  pub pending_checkpoints : Map SlotId CheckpointProof
  pub heartbeat_ticker : Timer
  pub timeout_timer : Timer
  pub caught_up : Map NodeId ℕ
  pub new_view : NewView
  pub shares_view_changes : Bool
  pub down : Bool
  pub sent : List Effect

-- 500 ms
abbrev pub timeout : ℕ
timeout = 500000000

abbrev pub checkpoint_interval : ℕ
checkpoint_interval = 100

abbrev pub emit : Effect → Node → Node
emit e n = record n { sent = e ∷ n.sent }

abbrev pub empty_slot : Slot
empty_slot = record {
  request = none;
  request_digest = 0;
  preprepare = none;
  prepares = [];
  commits = [];
  prepared = false;
  committed = false;
}

-- The slot of a number: the one in the log, or a new one that is put there.
unfoldable pub ensure_mapping : SlotId → Node → Slot × Node
ensure_mapping num n = elim (get num n.log) [
  | some slot ↦ (slot, n)
  | none ↦ (empty_slot, record n { log = put num empty_slot n.log })
]

-- for p := range peermap { m[p] = v }
unfoldable pub set_all : ℕ → Map NodeId String → Map NodeId ℕ → Map NodeId ℕ
set_all v [] m = m
set_all v ((p, hostname) ∷ peers) m = set_all v peers (put p v m)

module _ (lib : Library) (me : Host lib) where
  unfoldable pub is_primary : Node → Bool
  is_primary n = elim (leader_for lib me.cluster n.view_number) [
    | none ↦ false
    | some leader ↦ leader == me.id
  ]

  unfoldable pub get_primary : Node → NodeId × String
  get_primary n = elim (leader_for lib me.cluster n.view_number) [
    | none ↦ (0, "")
    | some leader ↦ elim (get leader me.peermap) [
      | none ↦ (0, "")
      | some hostname ↦ (leader, hostname)
    ]
  ]

  -- 2f, where the node has 3f peers.
  abbrev pub two_f : ℕ
  two_f = 2 * (length me.peermap / 3)

  unfoldable pub is_prepared : Slot → Bool
  is_prepared slot = is_some slot.preprepare && leb two_f (length slot.prepares)

  unfoldable pub is_committed : Slot → Bool
  is_committed slot = leb two_f (length slot.commits)

  unfoldable pub get_timeout : Node → ℕ
  get_timeout n = if is_primary n then timeout else timeout * length me.peermap / 2

  unfoldable pub start_timers : Node → Node
  start_timers n =
      if is_primary n
      then record n { heartbeat_ticker = running (get_timeout n) }
      else record n { timeout_timer = running (get_timeout n) }

  -- The timer whose channel the main loop reads; `unset` makes the loop panic.
  unfoldable pub get_timer : Node → Timer
  get_timer n = if is_primary n then n.heartbeat_ticker else n.timeout_timer

  -- The state that `StartNode` builds.
  unfoldable pub init : Node
  unfolding start_timers
  init = start_timers (record {
    requests = [];
    log = [];
    view_number = 0;
    sequence_number = 1;
    issued_sequence_number = 1;
    view_change = record { messages = []; in_progress = false; view_number = 0 };
    last_checkpoint = record {
      number = record { view_number = 0; seq_number = 0 };
      snapshot = [];
      proof = [];
    };
    pending_checkpoints = [];
    heartbeat_ticker = unset;
    timeout_timer = unset;
    caught_up = set_all 1 me.peermap [];
    new_view = record { view_number = 0; view_changes = []; preprepares = []; node = me.id };
    shares_view_changes = false;
    down = false;
    sent = [];
  })

abbrev stop : Timer → Timer
stop unset = unset
stop stopped = stopped
stop (running d) = stopped

unfoldable pub stop_timers : Node → Node
stop_timers n = record n {
  timeout_timer = stop n.timeout_timer;
  heartbeat_ticker = stop n.heartbeat_ticker;
}
