-- ===== src/Pbft/Library.antt =====
-- What the node takes from elsewhere: SHA-256, the JSON encoding of each message type
-- (encoding/json, which may fail), and detached OpenPGP signatures (golang.org/x/crypto/openpgp).
use distribute_pki.Base.{ℕ, String, ◌≡◌, List, Map, Result, ok}
use mathlib.Core.List.{Mem}
use distribute_pki.Pbft.Messages.{
  NodeId, EntityFingerprint, Digest, Bytes, ClusterConfig, PrePrepare, PpResponse, Prepare, Commit,
  Checkpoint, CheckpointProofMessage, ViewChange, NewView,
}

pub record Library : Type 1 where
  -- sha256.Sum256
  pub sha256 : String → Digest
  -- binary.LittleEndian.Uint32 of the SHA-256 of the four little-endian bytes of a uint32
  pub hash_uint32 : ℕ → ℕ
  pub encode_pre_prepare : PrePrepare → Result Bytes
  pub encode_pp_response : PpResponse → Result Bytes
  pub encode_prepare : Prepare → Result Bytes
  pub encode_commit : Commit → Result Bytes
  pub encode_checkpoint : Checkpoint → Result Bytes
  pub encode_checkpoint_proof : CheckpointProofMessage → Result Bytes
  pub encode_view_change : ViewChange → Result Bytes
  pub encode_new_view : NewView → Result Bytes
  -- *openpgp.Entity
  pub Entity : Type 0
  -- entity.PrimaryKey.Fingerprint
  pub fingerprint : Entity → EntityFingerprint
  -- openpgp.DetachSign: the signer, what is signed, the signature
  pub detach_sign : Entity → Bytes → Result Bytes
  -- openpgp.CheckDetachedSignature: the key ring, what was signed, the signature, the signer
  pub check_detached_signature : List Entity → Bytes → Bytes → Result Entity

-- The documented contract of the two OpenPGP calls: a signature that an entity made over some bytes
-- checks against those bytes under a key ring that holds the entity, and names that entity.
abbrev pub SignaturesCheck : Library → Type 0
SignaturesCheck lib =
    (entity : lib.Entity) (ring : List lib.Entity) (text signature : Bytes)
    → Mem entity ring
    → lib.detach_sign entity text ≡ ok signature
    → lib.check_detached_signature ring text signature ≡ ok entity

-- The fields of `PBFTNode` that the source calls immutable config data.
pub record Host (lib : Library) : Type 0 where
  pub id : NodeId
  pub peermap : Map NodeId String
  pub cluster : ClusterConfig
  pub entity : lib.Entity
  pub peer_entity_map : Map EntityFingerprint NodeId
  pub peer_entities : List lib.Entity
