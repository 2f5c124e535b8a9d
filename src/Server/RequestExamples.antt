-- ===== src/Server/RequestExamples.antt =====
-- The theorems on the key server at a concrete operation, with toy encodings: gob knows one operation,
-- and every signature is good.
use text.Mathlib.Text.{◌==◌ as str_eq}
use text.Mathlib.TextEquality.{eq_iff}
use distribute_pki.Base.{
  ℕ, ◌+◌, String, ◌≡◌, refl, Bool, true, not, ◌&&◌, none, some, List, [], ◌∷◌, arith, ◌==◌,
  if◌then◌else◌, is_some, nat_eq, string_eq, Result, ok, err, get,
}
use distribute_pki.Pbft.Messages.{Digest, Bytes}
use distribute_pki.Server.Keystore.{lookup_key}
use distribute_pki.Server.ClientApi.{
  Create, Op, a_create, an_update, a_lookup, another_op, KeyOperation, ClientLibrary, GobRoundTrips,
  operation_digest, digest_valid, create_signature_valid,
}
use distribute_pki.Server.KeyNode.{
  KeyNode, propose, propose_create, guard_create, request_create, Output, commit_sent,
  snapshot_asked, snapshot_sent,
}
use distribute_pki.Server.KeyRequests.{IsCreatable, Proposes, request_create-IsCreatable}
use distribute_pki.Server.Examples.{alice, empty}

abbrev pub bob : Create
bob = record { alias = "bob"; key = "key"; timestamp = 0; client = none; signature = "" }

abbrev pub create_bob : KeyOperation
create_bob = record { op_code = 1; op = a_create bob; digest = 9 }

abbrev is_bob : Create → Bool
is_bob c =
    str_eq c.alias "bob"
    && (str_eq c.key "key"
        && ((c.timestamp == 0) && (not (is_some c.client) && str_eq c.signature "")))

abbrev encode_bob : ℕ → Op → Digest → Result String
encode_bob code (a_create c) digest =
    if (code == 1) && ((digest == 9) && is_bob c) then ok "bob" else err "unknown"
encode_bob code (an_update u) digest = err "unknown"
encode_bob code (a_lookup l) digest = err "unknown"
encode_bob code another_op digest = err "unknown"

abbrev first_byte : Bytes → ℕ
first_byte [] = 0
first_byte (n ∷ b) = n

abbrev pub toy : ClientLibrary
toy = record {
  encode_operation = λ ko. ok (ko.op_code ∷ []);
  encode_mapping = λ m. ok [];
  marshal_mapping = λ m. ok "";
  sum256 = λ b. first_byte b + 8;
  decode_base64 = λ s. [];
  Ring = ℕ;
  check_detached_signature = λ ring text signature. ok tt;
  read_armored_key_ring = λ key. ok 0;
  check_armored_detached_signature = λ ring text signature. ok tt;
  gob_encode = λ ko. encode_bob ko.op_code ko.op ko.digest;
  gob_decode = λ text. (create_bob, ok tt);
}

is_bob-eq : (c : Create) → is_bob c ≡ true → c ≡ bob
is_bob-eq c h = ground (arith, eq_iff c.alias "bob", eq_iff c.key "key", eq_iff c.signature "")

encode_bob-eq :
    (code : ℕ) (op : Op) (digest : Digest) (text : String)
    → encode_bob code op digest ≡ ok text
    → (code ≡ 1) × (op ≡ a_create bob) × (digest ≡ 9)
encode_bob-eq code (a_create c) digest text h = ground (arith, is_bob-eq c)
encode_bob-eq code (an_update u) digest text h = ground arith
encode_bob-eq code (a_lookup l) digest text h = ground arith
encode_bob-eq code another_op digest text h = ground arith

pub toy-GobRoundTrips : GobRoundTrips toy
toy-GobRoundTrips ko text h =
    let e = encode_bob-eq ko.op_code ko.op ko.digest text h in ground (arith, e)

abbrev pub server : KeyNode
server = record { store = alice; pending = []; proposed = []; snapshot_replies = [] }

abbrev fresh_server : KeyNode
fresh_server = record { store = empty; pending = []; proposed = []; snapshot_replies = [] }

abbrev pub asked : KeyNode
asked = record server { proposed = "bob" ∷ [] }

pub asked_lem : request_create toy 0 create_bob server ≡ some (ok tt, asked)
unfolding request_create guard_create propose_create propose digest_valid operation_digest
    create_signature_valid lookup_key get
asked_lem = refl

request_create-IsCreatable_example :
    (c : Create) × IsCreatable toy 0 create_bob c server × Proposes toy create_bob server asked
request_create-IsCreatable_example =
    request_create-IsCreatable toy 0 create_bob server asked asked_lem

abbrev pub update_alice : KeyOperation
update_alice = record {
  op_code = 2;
  op =
      an_update
        (record { alias = "alice"; key = "new"; timestamp = 0; client = none; signature = "" });
  digest = 10;
}

abbrev outputs : List Output
outputs =
    commit_sent (some "bob")
    ∷ snapshot_asked (record { view_number = 0; seq_number = 100 })
    ∷ snapshot_sent (1 ∷ [])
    ∷ []
