-- ===== src/Pbft/Messages.antt =====
-- The messages of src/pbft/messages.go, `Slot` and the cluster's configuration of
-- src/pbft/common.go, and src/pbft/debug.go's message. A digest is the number that its 32 bytes
-- spell, so that the zero array is 0; a []byte is a list of numbers; a pointer is an `Option`.
use distribute_pki.Base.{ℕ, String, Bool, Option, List, Map}
use distribute_pki.Pbft.SlotId.{SlotId}

abbrev pub NodeId : Type 0
NodeId = ℕ

abbrev pub EntityFingerprint : Type 0
EntityFingerprint = ℕ

abbrev pub Digest : Type 0
Digest = ℕ

abbrev pub Bytes : Type 0
Bytes = List ℕ

pub record NodeConfig : Type 0 where
  pub client_port : ℕ
  pub host : String
  pub id : NodeId
  pub port : ℕ
  pub private_key_file : String
  pub public_key_file : String
  pub pass_phrase_file : String

pub record ClusterConfig : Type 0 where
  pub nodes : List NodeConfig
  pub authority_key_file : String
  pub endpoint : String

pub record PrePrepare : Type 0 where
  pub number : SlotId
  pub request_digest : Digest

pub record SignedPrePrepare : Type 0 where
  pub message : PrePrepare
  pub signature : Bytes

pub record FullPrePrepare : Type 0 where
  pub signed_message : SignedPrePrepare
  pub request : String

pub record PpResponse : Type 0 where
  pub seq_number : ℕ

pub record SignedPpResponse : Type 0 where
  pub message : PpResponse
  pub signature : Bytes

pub record Prepare : Type 0 where
  pub number : SlotId
  pub request_digest : Digest
  pub node : NodeId

pub record SignedPrepare : Type 0 where
  pub message : Prepare
  pub signature : Bytes

pub record Commit : Type 0 where
  pub number : SlotId
  pub request_digest : Digest
  pub node : NodeId

pub record SignedCommit : Type 0 where
  pub message : Commit
  pub signature : Bytes

pub record Checkpoint : Type 0 where
  pub number : SlotId
  pub snapshot : Bytes
  pub node : NodeId

pub record SignedCheckpoint : Type 0 where
  pub message : Checkpoint
  pub signature : Bytes

pub record CheckpointProof : Type 0 where
  pub number : SlotId
  pub snapshot : Bytes
  pub proof : Map NodeId SignedCheckpoint

pub record CheckpointProofMessage : Type 0 where
  pub proof : CheckpointProof
  pub node : NodeId

pub record SignedCheckpointProof : Type 0 where
  pub message : CheckpointProofMessage
  pub signature : Bytes

pub record PreparedProof : Type 0 where
  pub number : SlotId
  pub request : String
  pub preprepare : SignedPrePrepare
  pub request_digest : Digest
  pub prepares : Map NodeId SignedPrepare

pub record ViewChange : Type 0 where
  pub view_number : ℕ
  pub checkpoint : SlotId
  pub checkpoint_proof : Map NodeId SignedCheckpoint
  pub proofs : Map SlotId PreparedProof
  pub node : NodeId

pub record SignedViewChange : Type 0 where
  pub message : ViewChange
  pub signature : Bytes

pub record NewView : Type 0 where
  pub view_number : ℕ
  pub view_changes : Map NodeId SignedViewChange
  pub preprepares : Map SlotId FullPrePrepare
  pub node : NodeId

pub record SignedNewView : Type 0 where
  pub message : NewView
  pub signature : Bytes

pub record Slot : Type 0 where
  pub request : Option String
  pub request_digest : Digest
  pub preprepare : Option SignedPrePrepare
  pub prepares : Map NodeId SignedPrepare
  pub commits : Map NodeId SignedCommit
  pub prepared : Bool
  pub committed : Bool

pub data DebugOp : Type 0 where
  put_op down_op up_op : DebugOp

pub record DebugMessage : Type 0 where
  pub op : DebugOp
  pub request : String
