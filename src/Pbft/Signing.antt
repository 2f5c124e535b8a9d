-- ===== src/Pbft/Signing.antt =====
-- src/pbft/signing.go: every message is signed over its JSON encoding, and a signature is valid when
-- OpenPGP accepts it; the signer's node is then looked up by its fingerprint.
use distribute_pki.Base.{none, some, List, Map, get, nat_eq, Result, ok, ◌>>=◌}
use distribute_pki.Pbft.Messages.{
  NodeId, EntityFingerprint, Bytes, PrePrepare, SignedPrePrepare, PpResponse, SignedPpResponse,
  Prepare, SignedPrepare, Commit, SignedCommit, Checkpoint, SignedCheckpoint,
  CheckpointProofMessage, SignedCheckpointProof, ViewChange, SignedViewChange, NewView,
  SignedNewView,
}
use distribute_pki.Pbft.Library.{Library}

module _ (lib : Library) where
  -- peerMap[signer.PrimaryKey.Fingerprint]: a fingerprint that the map lacks gives node 0.
  unfoldable pub signer_id : Map EntityFingerprint NodeId → lib.Entity → NodeId
  signer_id peer_map signer = elim (get (lib.fingerprint signer) peer_map) [
    | none ↦ 0
    | some id ↦ id
  ]

  unfoldable pub sign_pre_prepare : PrePrepare → lib.Entity → Result SignedPrePrepare
  sign_pre_prepare m node = do
    text ← lib.encode_pre_prepare m
    signature ← lib.detach_sign node text
    ok (record { message = m; signature = signature })

  unfoldable pub pre_prepare_signature_valid :
      List lib.Entity → Map EntityFingerprint NodeId → SignedPrePrepare → Result NodeId
  unfolding signer_id
  pre_prepare_signature_valid peers peer_map m = do
    text ← lib.encode_pre_prepare m.message
    signer ← lib.check_detached_signature peers text m.signature
    ok (signer_id peer_map signer)

  unfoldable pub get_signature : PpResponse → lib.Entity → Result Bytes
  get_signature m node = do text ← lib.encode_pp_response m; lib.detach_sign node text

  unfoldable pub sign_pp_response : PpResponse → lib.Entity → Result SignedPpResponse
  unfolding get_signature
  sign_pp_response m node = do
    signature ← get_signature m node
    ok (record { message = m; signature = signature })

  unfoldable pub pp_response_signature_valid :
      List lib.Entity → Map EntityFingerprint NodeId → SignedPpResponse → Result NodeId
  unfolding signer_id
  pp_response_signature_valid peers peer_map m = do
    text ← lib.encode_pp_response m.message
    signer ← lib.check_detached_signature peers text m.signature
    ok (signer_id peer_map signer)

  unfoldable pub sign_prepare : Prepare → lib.Entity → Result SignedPrepare
  sign_prepare m node = do
    text ← lib.encode_prepare m
    signature ← lib.detach_sign node text
    ok (record { message = m; signature = signature })

  unfoldable pub prepare_signature_valid :
      List lib.Entity → Map EntityFingerprint NodeId → SignedPrepare → Result NodeId
  unfolding signer_id
  prepare_signature_valid peers peer_map m = do
    text ← lib.encode_prepare m.message
    signer ← lib.check_detached_signature peers text m.signature
    ok (signer_id peer_map signer)

  unfoldable pub sign_commit : Commit → lib.Entity → Result SignedCommit
  sign_commit m node = do
    text ← lib.encode_commit m
    signature ← lib.detach_sign node text
    ok (record { message = m; signature = signature })

  unfoldable pub commit_signature_valid :
      List lib.Entity → Map EntityFingerprint NodeId → SignedCommit → Result NodeId
  unfolding signer_id
  commit_signature_valid peers peer_map m = do
    text ← lib.encode_commit m.message
    signer ← lib.check_detached_signature peers text m.signature
    ok (signer_id peer_map signer)

  unfoldable pub sign_checkpoint : Checkpoint → lib.Entity → Result SignedCheckpoint
  sign_checkpoint m node = do
    text ← lib.encode_checkpoint m
    signature ← lib.detach_sign node text
    ok (record { message = m; signature = signature })

  unfoldable pub checkpoint_signature_valid :
      List lib.Entity → Map EntityFingerprint NodeId → SignedCheckpoint → Result NodeId
  unfolding signer_id
  checkpoint_signature_valid peers peer_map m = do
    text ← lib.encode_checkpoint m.message
    signer ← lib.check_detached_signature peers text m.signature
    ok (signer_id peer_map signer)

  unfoldable pub sign_checkpoint_proof :
      CheckpointProofMessage → lib.Entity → Result SignedCheckpointProof
  sign_checkpoint_proof m node = do
    text ← lib.encode_checkpoint_proof m
    signature ← lib.detach_sign node text
    ok (record { message = m; signature = signature })

  unfoldable pub checkpoint_proof_signature_valid :
      List lib.Entity → Map EntityFingerprint NodeId → SignedCheckpointProof → Result NodeId
  unfolding signer_id
  checkpoint_proof_signature_valid peers peer_map m = do
    text ← lib.encode_checkpoint_proof m.message
    signer ← lib.check_detached_signature peers text m.signature
    ok (signer_id peer_map signer)

  unfoldable pub sign_view_change : ViewChange → lib.Entity → Result SignedViewChange
  sign_view_change m node = do
    text ← lib.encode_view_change m
    signature ← lib.detach_sign node text
    ok (record { message = m; signature = signature })

  unfoldable pub view_change_signature_valid :
      List lib.Entity → Map EntityFingerprint NodeId → SignedViewChange → Result NodeId
  unfolding signer_id
  view_change_signature_valid peers peer_map m = do
    text ← lib.encode_view_change m.message
    signer ← lib.check_detached_signature peers text m.signature
    ok (signer_id peer_map signer)

  unfoldable pub sign_new_view : NewView → lib.Entity → Result SignedNewView
  sign_new_view m node = do
    text ← lib.encode_new_view m
    signature ← lib.detach_sign node text
    ok (record { message = m; signature = signature })

  unfoldable pub new_view_signature_valid :
      List lib.Entity → Map EntityFingerprint NodeId → SignedNewView → Result NodeId
  unfolding signer_id
  new_view_signature_valid peers peer_map m = do
    text ← lib.encode_new_view m.message
    signer ← lib.check_detached_signature peers text m.signature
    ok (signer_id peer_map signer)
