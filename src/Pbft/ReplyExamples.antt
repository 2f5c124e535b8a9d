-- ===== src/Pbft/ReplyExamples.antt =====
-- The digest of one reply at another one.
use distribute_pki.Base.{String, ◌≡◌, refl, true, none, some, nat_eq, string_eq}
use distribute_pki.Pbft.Replies.{
  ClientReply, set_reply_digest, reply_digest, reply_digest_valid, encode_reply,
  set_reply_digest-blind,
}
use distribute_pki.Pbft.Fixtures.{toy}

abbrev reply_of : String → ClientReply
reply_of result = record {
  result = result;
  view_number = 0;
  timestamp = 0;
  client = none;
  node = none;
  digest = 0;
}

one_digest : reply_digest_valid toy (record (reply_of "no") { digest = 2 }) ≡ some true
unfolding set_reply_digest reply_digest encode_reply
one_digest =
    set_reply_digest-blind toy (reply_of "yes") (reply_of "no")
      (record (reply_of "yes") { digest = 2 }) refl
