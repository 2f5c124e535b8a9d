-- ===== src/Server/ClientApi.antt =====
-- src/distributepki/clientapi/interface.go: what a client asks for, its digest and its signature. JSON,
-- base64, gob, SHA-256 and OpenPGP are parameters. A net.Addr, which stays nil, is its text; a digest
-- is a number, and the zero array is 0.
use distribute_pki.Base.{
  ◌>>=◌, ℕ, String, ◌≡◌, Bool, true, false, Option, none, some, ◌==◌, nat_eq, string_eq, Result, ok,
  err,
}
use distribute_pki.Pbft.Messages.{Digest, Bytes}
use distribute_pki.Server.Keystore.{Alias, Key}

abbrev pub Signature : Type 0
Signature = String

pub record Create : Type 0 where
  pub alias : Alias
  pub key : Key
  pub timestamp : ℕ
  pub client : Option String
  pub signature : Signature

pub record Update : Type 0 where
  pub alias : Alias
  pub key : Key
  pub timestamp : ℕ
  pub client : Option String
  pub signature : Signature

pub record Lookup : Type 0 where
  pub alias : Alias
  pub client : Option String

-- The dynamic type of the interface{} field, with its value.
pub data Op : Type 0 where
  a_create : Create → Op
  an_update : Update → Op
  a_lookup : Lookup → Op
  another_op : Op

pub record KeyOperation : Type 0 where
  pub op_code : ℕ
  pub op : Op
  pub digest : Digest

abbrev pub op_create : ℕ
op_create = 1

abbrev pub op_update : ℕ
op_update = 2

abbrev pub op_lookup : ℕ
op_lookup = 3

-- keyMapping, what a signature is made over
pub record KeyMapping : Type 0 where
  pub alias : String
  pub key : String
  pub timestamp : ℕ

pub record ClientLibrary : Type 1 where
  -- json.NewEncoder(&buf).Encode at *KeyOperation and at keyMapping, json.Marshal at *keyMapping
  pub encode_operation : KeyOperation → Result Bytes
  pub encode_mapping : KeyMapping → Result Bytes
  pub marshal_mapping : KeyMapping → Result String
  -- sha256.Sum256
  pub sum256 : Bytes → Digest
  -- base64.StdEncoding.DecodeString: the bytes decoded before an error, too
  pub decode_base64 : String → Bytes
  -- openpgp.EntityList and the calls that check signatures
  pub Ring : Type 0
  pub check_detached_signature : Ring → Bytes → Bytes → Result (Unit {0})
  pub read_armored_key_ring : String → Result Ring
  pub check_armored_detached_signature : Ring → String → String → Result (Unit {0})
  -- gob.NewEncoder(&buf).Encode and gob.NewDecoder(...).Decode, which may fill a part and fail
  pub gob_encode : KeyOperation → Result String
  pub gob_decode : String → KeyOperation × Result (Unit {0})

abbrev is_ok {ℓ} : {A : Type ℓ} → Result A → Bool
is_ok (ok a) = true
is_ok (err e) = false

module _ (lib : ClientLibrary) where
  unfoldable pub operation_digest : KeyOperation → Result Digest
  operation_digest ko = do text ← lib.encode_operation ko; ok (lib.sum256 text)

  -- `SetDigest`; an error ends the process.
  unfoldable pub set_digest : KeyOperation → Option KeyOperation
  set_digest ko = elim (operation_digest (record ko { digest = 0 })) [
    | err e ↦ none
    | ok d ↦ some (record ko { digest = d })
  ]

  -- `DigestValid`; an error ends the process, and otherwise the operation is as it was.
  unfoldable pub digest_valid : KeyOperation → Option Bool
  digest_valid ko = elim (operation_digest (record ko { digest = 0 })) [
    | err e ↦ none
    | ok d ↦ some (d == ko.digest)
  ]

  unfoldable pub create_signature_valid : lib.Ring → Create → Bool
  create_signature_valid authorities c =
      elim (lib.encode_mapping (record { alias = c.alias; key = c.key; timestamp = c.timestamp })) [
        | err e ↦ false
        | ok text ↦
            is_ok (lib.check_detached_signature authorities text (lib.decode_base64 c.signature))
      ]

  unfoldable pub update_signature_valid : Key → Update → Bool
  update_signature_valid previous_key u = elim (lib.read_armored_key_ring previous_key) [
    | err e ↦ false
    | ok ring ↦
        elim (lib.marshal_mapping
          (record { alias = u.alias; key = u.key; timestamp = u.timestamp })) [
            | err e ↦ false
            | ok text ↦ is_ok (lib.check_armored_detached_signature ring text u.signature)
          ]
  ]

-- The documented round trip of encoding/gob.
abbrev pub GobRoundTrips : ClientLibrary → Type 0
GobRoundTrips lib =
    (ko : KeyOperation) (text : String)
    → lib.gob_encode ko ≡ ok text
    → lib.gob_decode text ≡ (ko, ok tt)
