-- ===== src/Pbft/Replies.antt =====
-- src/pbft/signing.go: the digest of a ClientReply of src/pbft/messages.go. None of its fields is exported,
-- so encoding/json writes none. A time is a number, a net.Addr its text, and the zero array is 0.
use distribute_pki.Base.{
  ℕ, String, ◌≡◌, Bool, true, Option, none, some, arith, ◌==◌, nat_eq, string_eq, Result, ok, err,
}
use distribute_pki.Pbft.Messages.{Digest}
use distribute_pki.Pbft.Library.{Library}

pub record ClientReply : Type 0 where
  pub result : String
  pub view_number : ℕ
  pub timestamp : ℕ
  pub client : Option String
  pub node : Option String
  pub digest : Digest

-- json.NewEncoder(&buf).Encode(*cr)
unfoldable pub encode_reply : ClientReply → String
encode_reply cr = "{}\n"

module _ (lib : Library) where
  unfoldable pub reply_digest : ClientReply → Result Digest
  reply_digest cr = ok (lib.sha256 (encode_reply cr))

  -- `SetDigest`; an error would end the process.
  unfoldable pub set_reply_digest : ClientReply → Option ClientReply
  set_reply_digest cr = elim (reply_digest (record cr { digest = 0 })) [
    | err e ↦ none
    | ok d ↦ some (record cr { digest = d })
  ]

  -- `DigestValid`; the digest is as it was afterwards.
  unfoldable pub reply_digest_valid : ClientReply → Option Bool
  reply_digest_valid cr = elim (reply_digest (record cr { digest = 0 })) [
    | err e ↦ none
    | ok d ↦ some (d == cr.digest)
  ]

  -- `SetDigest` gives every reply the same digest: the digest that it makes valid for one reply is valid
  -- for any other one, whatever that says.
  pub set_reply_digest-blind :
      (cr other after : ClientReply)
      → set_reply_digest cr ≡ some after
      → reply_digest_valid (record other { digest = after.digest }) ≡ some true
  unfolding set_reply_digest reply_digest_valid reply_digest encode_reply
  set_reply_digest-blind cr other after h = ground arith
