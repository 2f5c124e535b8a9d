-- ===== src/Pbft/Fixtures.antt =====
-- A cluster of four nodes with a toy library, for the tests: a signature is the signer followed by
-- the text, and view v is led by node v % 4 + 1.
use distribute_pki.Base.{ℕ, ◌+◌, [], ◌∷◌, arith, if◌then◌else◌, nat_eq, string_eq, Result, ok, err}
use text.Mathlib.Text.{◌==◌ as str_eq}
use distribute_pki.Pbft.SlotId.{SlotId}
use distribute_pki.Pbft.Messages.{
  NodeId, Bytes, NodeConfig, ClusterConfig, FullPrePrepare, SignedPrepare, SignedCommit,
}
use distribute_pki.Pbft.Library.{Library, Host, SignaturesCheck}

abbrev first_byte : Bytes → Result ℕ
first_byte [] = err "no signature"
first_byte (e ∷ text) = ok e

abbrev pub toy : Library
toy = record {
  sha256 = λ s. if str_eq s "" then 1 else 2;
  hash_uint32 = λ n. n;
  encode_pre_prepare = λ m. ok (m.number.seq_number ∷ []);
  encode_pp_response = λ m. ok (m.seq_number ∷ []);
  encode_prepare = λ m. ok (m.number.seq_number ∷ m.node ∷ []);
  encode_commit = λ m. ok (m.number.seq_number ∷ m.node ∷ []);
  encode_checkpoint = λ m. ok (m.number.seq_number ∷ m.node ∷ []);
  encode_checkpoint_proof = λ m. ok (m.node ∷ []);
  encode_view_change = λ m. ok (m.view_number ∷ m.node ∷ []);
  encode_new_view = λ m. ok (m.view_number ∷ m.node ∷ []);
  Entity = ℕ;
  fingerprint = λ e. e + 100;
  detach_sign = λ e text. ok (e ∷ text);
  check_detached_signature = λ ring text signature. first_byte signature;
}

pub toy-SignaturesCheck : SignaturesCheck toy
toy-SignaturesCheck entity ring text signature m e = ground arith

abbrev pub node_config : ℕ → NodeConfig
node_config i = record {
  client_port = 8000 + i;
  host = "localhost";
  id = i;
  port = 9000 + i;
  private_key_file = "";
  public_key_file = "";
  pass_phrase_file = "";
}

abbrev pub cluster : ClusterConfig
cluster = record {
  nodes = node_config 1 ∷ node_config 2 ∷ node_config 3 ∷ node_config 4 ∷ [];
  authority_key_file = "";
  endpoint = "/pbft";
}

-- Node 2, a backup in view 0.
abbrev pub backup : Host toy
backup = record {
  id = 2;
  peermap = (1, "a") ∷ (3, "c") ∷ (4, "d") ∷ [];
  cluster = cluster;
  entity = 2;
  peer_entity_map = (101, 1) ∷ (103, 3) ∷ (104, 4) ∷ [];
  peer_entities = 1 ∷ 3 ∷ 4 ∷ [];
}

-- Node 1, the primary of view 0.
abbrev pub leader : Host toy
leader = record {
  id = 1;
  peermap = (2, "b") ∷ (3, "c") ∷ (4, "d") ∷ [];
  cluster = cluster;
  entity = 1;
  peer_entity_map = (102, 2) ∷ (103, 3) ∷ (104, 4) ∷ [];
  peer_entities = 2 ∷ 3 ∷ 4 ∷ [];
}

abbrev pub slot_two : SlotId
slot_two = record { view_number = 0; seq_number = 2 }

abbrev pub proposal : FullPrePrepare
proposal = record {
  signed_message = record {
    message = record { number = slot_two; request_digest = 2 };
    signature = 1 ∷ 2 ∷ [];
  };
  request = "op";
}

abbrev pub prepare_of : NodeId → SignedPrepare
prepare_of i = record {
  message = record { number = slot_two; request_digest = 2; node = i };
  signature = i ∷ [];
}

abbrev pub commit_of : NodeId → SignedCommit
commit_of i = record {
  message = record { number = slot_two; request_digest = 2; node = i };
  signature = i ∷ [];
}
