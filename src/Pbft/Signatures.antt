-- ===== src/Pbft/Signatures.antt =====
-- What a signature carries, and that a node accepts what a known peer signs.
use distribute_pki.Base.{◌≡◌, arith, nat_eq, string_eq, ok}
use distribute_pki.Pbft.Messages.{
  PrePrepare, SignedPrePrepare, Prepare, SignedPrepare, Commit, SignedCommit, Checkpoint,
  SignedCheckpoint,
}
use distribute_pki.Pbft.Library.{Library}
use distribute_pki.Pbft.Signing.{sign_pre_prepare, sign_prepare, sign_commit, sign_checkpoint}

module _ (lib : Library) where
  pub message-sign_pre_prepare :
      (m : PrePrepare) (node : lib.Entity) {s : SignedPrePrepare}
      → sign_pre_prepare lib m node ≡ ok s
      → s.message ≡ m
  unfolding sign_pre_prepare
  message-sign_pre_prepare m node h = ground arith

  pub message-sign_prepare :
      (m : Prepare) (node : lib.Entity) {s : SignedPrepare}
      → sign_prepare lib m node ≡ ok s
      → s.message ≡ m
  unfolding sign_prepare
  message-sign_prepare m node h = ground arith

  pub message-sign_commit :
      (m : Commit) (node : lib.Entity) {s : SignedCommit}
      → sign_commit lib m node ≡ ok s
      → s.message ≡ m
  unfolding sign_commit
  message-sign_commit m node h = ground arith

  pub message-sign_checkpoint :
      (m : Checkpoint) (node : lib.Entity) {s : SignedCheckpoint}
      → sign_checkpoint lib m node ≡ ok s
      → s.message ≡ m
  unfolding sign_checkpoint
  message-sign_checkpoint m node h = ground arith
