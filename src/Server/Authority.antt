-- ===== src/Server/Authority.antt =====
-- src/mock_authority/main.go: the HTTP handler of the mock authority, which signs what it is sent, and
-- what the key server makes of its answer. The configuration is read in `LoadConfig`.
use distribute_pki.Base.{
  ℕ, String, ◌≡◌, refl, inl, inr, true, Option, none, some, arith, nat_eq, string_eq, Result-cases,
  Result, ok, err, ◌>>=◌,
}
use distribute_pki.Pbft.Messages.{Bytes}
use distribute_pki.Server.ClientApi.{Create, KeyMapping, ClientLibrary, create_signature_valid}
use distribute_pki.Server.Http.{BodyJson, Response, silent, written, http_error, to_create}

pub record KeyMappingSigned : Type 0 where
  pub alias : String
  pub key : String
  pub timestamp : ℕ
  pub signature : Bytes

pub record AuthConfig : Type 0 where
  pub public_key : String
  pub secret_key : String
  pub secret : String
  pub endpoint : String
  pub host : String
  pub port : ℕ

pub record AuthorityLibrary : Type 1 where
  -- ioutil.ReadFile
  pub read_file : String → Result String
  -- encoding/json: json.Unmarshal at *authConfig, json.NewDecoder(r.Body).Decode at *KeyMapping, and
  -- json.NewEncoder(w).Encode at keyMappingSigned
  pub unmarshal_config : String → Result AuthConfig
  pub decode_mapping : String → Result KeyMapping
  pub encode_signed : KeyMappingSigned → Result String
  -- *openpgp.Entity and openpgp.DetachSign
  pub Entity : Type 0
  pub detach_sign : Entity → Bytes → Result Bytes

unfoldable pub load_config : AuthorityLibrary → String → Result AuthConfig
load_config auth filename = do data_read ← auth.read_file filename; auth.unmarshal_config data_read

module _ (lib : ClientLibrary) (auth : AuthorityLibrary) where
  -- The handler once the mapping to sign is read.
  unfoldable pub sign_mapping : Option auth.Entity → KeyMapping → Response
  sign_mapping this_entity to_sign = elim (lib.encode_mapping to_sign) [
    | err e ↦ silent
    | ok text ↦ elim this_entity [
      | none ↦ silent
      | some entity ↦ elim (auth.detach_sign entity text) [
        | err e ↦ silent
        | ok sig ↦
            elim (auth.encode_signed (record {
              alias = to_sign.alias;
              key = to_sign.key;
              timestamp = to_sign.timestamp;
              signature = sig;
            })) [ err e ↦ silent | ok body ↦ written body ]
      ]
    ]
  ]

  -- `handler`; a request without a body is `none`.
  unfoldable pub handle_sign : Option auth.Entity → Option String → Response
  handle_sign this_entity none = http_error "Please send a request body" 400
  handle_sign this_entity (some body) = elim (auth.decode_mapping body) [
    | err e ↦ http_error e 400
    | ok to_sign ↦ sign_mapping this_entity to_sign
  ]

  -- What the key server and the authority rely on of the libraries they share: a detached signature of
  -- the authority's key checks, a byte slice is base64 in JSON, and the base64 of a signature is read back.
  pub record IsTrusted (json : BodyJson) (entity : auth.Entity) (keyring : lib.Ring) : Type 0 where
    pub base64 : Bytes → String
    pub base64_reads :
        (text sig : Bytes)
        → auth.detach_sign entity text ≡ ok sig
        → lib.decode_base64 (base64 sig) ≡ sig
    pub signature_checks :
        (text sig : Bytes)
        → auth.detach_sign entity text ≡ ok sig
        → lib.check_detached_signature keyring text sig ≡ ok tt
    pub json_reads :
        (signed : KeyMappingSigned) (body : String)
        → auth.encode_signed signed ≡ ok body
        → json.unmarshal_create body
          ≡ ok (record {
            alias = signed.alias;
            key = signed.key;
            timestamp = signed.timestamp;
            signature = base64 signed.signature;
          })

  -- What the authority writes in answer to a mapping, a key server that has the authority's key in its
  -- ring reads as a Create of that mapping whose signature is valid.
  pub handle_sign-create_signature_valid :
      (json : BodyJson) (entity : auth.Entity) (keyring : lib.Ring) (request body : String)
      (m : KeyMapping)
      → IsTrusted json entity keyring
      → auth.decode_mapping request ≡ ok m
      → handle_sign (some entity) (some request) ≡ written body
      → (c : Create) × ((json.unmarshal_create body >>= to_create) ≡ ok c)
        × (create_signature_valid lib keyring c ≡ true)
        × (c.alias ≡ m.alias)
        × (c.key ≡ m.key)
        × (c.timestamp ≡ m.timestamp)
  unfolding handle_sign sign_mapping to_create create_signature_valid
  handle_sign-create_signature_valid json entity keyring request body m t d h =
      elim (Result-cases (lib.encode_mapping m)) [
        | inl (e, p) ↦ ground arith
        | inr (text, p) ↦ elim (Result-cases (auth.detach_sign entity text)) [
          | inl (e, q) ↦ ground arith
          | inr (sig, q) ↦
              let signed : KeyMappingSigned = record {
                alias = m.alias;
                key = m.key;
                timestamp = m.timestamp;
                signature = sig;
              } in
              elim (Result-cases (auth.encode_signed signed)) [
                | inl (e, r) ↦ ground arith
                | inr (written_body, r) ↦ (
                  record {
                    alias = m.alias;
                    key = m.key;
                    timestamp = m.timestamp;
                    client = none;
                    signature = t.base64 sig;
                  },
                  ground (arith, t.json_reads signed written_body r),
                  ground (arith, t.signature_checks text sig q, t.base64_reads text sig q),
                  refl,
                  refl,
                  refl,
                )
              ]
        ]
      ]
