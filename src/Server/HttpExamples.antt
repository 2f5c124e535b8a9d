-- ===== src/Server/HttpExamples.antt =====
-- The theorems on the HTTP handlers at a concrete request.
use text.Mathlib.Text.{◌==◌ as str_eq}
use text.Mathlib.TextEquality.{eq_iff}
use distribute_pki.Base.{
  ℕ, ◌≡◌, refl, inl, Bool, true, false, ◌&&◌, none, some, [], ◌∷◌, arith, ◌==◌, if◌then◌else◌,
  nat_eq, string_eq, All, Result, ok, err, ◌>>=◌,
}
use distribute_pki.Pbft.Messages.{Bytes}
use distribute_pki.Server.ClientApi.{
  Create, KeyMapping, operation_digest, set_digest, create_signature_valid, ClientLibrary,
}
use distribute_pki.Server.KeyNode.{
  KeyNode, mapped, apply_commit, apply_commits, commit_sent, handle_output, handle_commit_sent,
}
use distribute_pki.Server.Http.{
  BodyJson, CreateJson, Request, post_method, http_error, to_create, write_json, handle_http,
  Response, wait_for_commit,
}
use distribute_pki.Server.Waiting.{
  IsPosted, handle_http-waits, handle_http-committed, handle_http-timeout,
}
use distribute_pki.Server.Authority.{
  KeyMappingSigned, AuthorityLibrary, IsTrusted, sign_mapping, handle_sign,
  handle_sign-create_signature_valid,
}
use distribute_pki.Server.Examples.{one_map}
use distribute_pki.Server.Histories.{
  http_step, output_step, reached_start, reached_by, WasSigned, proposed-WasSigned,
}
use distribute_pki.Server.RequestExamples.{
  toy, toy-GobRoundTrips, create_bob, bob, server, asked, asked_lem,
}

abbrev pub bob_json : CreateJson
bob_json = record { alias = "bob"; key = "key"; timestamp = 0; signature = "" }

abbrev pub json : BodyJson
json = record {
  unmarshal_create = λ b. ok bob_json;
  unmarshal_update = λ b. err "unknown";
  marshal_string = λ s. ok "quoted";
}

abbrev posted : Request
posted = record { method = post_method; name = ""; body = ok "body" }

posted-IsPosted : IsPosted toy json 0 posted create_bob "bob" server asked
unfolding to_create set_digest operation_digest
posted-IsPosted = record {
  method = refl;
  body = "body";
  reads = refl;
  create_json = bob_json;
  parses = refl;
  create = bob;
  converts = refl;
  digests = refl;
  accepted = asked_lem;
  encoded = refl;
}

handle_http-committed_example :
    (last : KeyNode) × (handle_http toy json 0 false posted []
        (none ∷ some "bob" ∷ none ∷ [])
        server
      ≡ some (write_json json "", last))
handle_http-committed_example =
    handle_http-committed toy json 0 posted create_bob "bob" server asked [] (none ∷ []) (none ∷ [])
      toy-GobRoundTrips (inl posted-IsPosted) refl

-- The commit comes before the wait is registered.
handle_http-timeout_example :
    (last : KeyNode) × (handle_http toy json 0 false posted (some "bob" ∷ []) [] server
      ≡ some (http_error "Timeout on wait for Commit" 500, last))
    × (last.store ≡ (apply_commits toy [] (apply_commits toy (some "bob" ∷ []) asked)).store)
handle_http-timeout_example =
    handle_http-timeout toy json 0 posted create_bob "bob" server asked (some "bob" ∷ []) []
      (inl posted-IsPosted) refl

abbrev answered : Response × KeyNode
answered = wait_for_commit toy json create_bob [] asked

answered_lem : handle_http toy json 0 false posted [] [] server ≡ some (answered.0, answered.1)
unfolding apply_commits
answered_lem =
    handle_http-waits toy json 0 posted create_bob "bob" server asked [] [] (inl posted-IsPosted)

-- A request is answered, and then its operation is committed.
proposed-WasSigned_example :
    All
      (WasSigned toy json one_map 0 (mapped server))
      (apply_commit toy (some "bob") answered.1).proposed
unfolding handle_output handle_commit_sent
proposed-WasSigned_example =
    proposed-WasSigned toy json one_map 0 (mapped server)
      (mapped (apply_commit toy (some "bob") answered.1))
      (reached_by (mapped answered.1) _
        (reached_by (mapped server) _ reached_start
          (http_step server answered.1 false posted [] [] answered.0 answered_lem))
        (output_step (mapped answered.1) _ (commit_sent (some "bob")) refl))
      refl

abbrev pub bob_mapping : KeyMapping
bob_mapping = record { alias = "bob"; key = "key"; timestamp = 0 }

abbrev pub check_first : ℕ → Bytes → Result (Unit {0})
check_first ring [] = err "no signature"
check_first ring (n ∷ b) = if n == ring then ok tt else err "another signer"

abbrev pub is_bob : KeyMappingSigned → Bool
is_bob s = str_eq s.alias "bob" && (str_eq s.key "key" && (s.timestamp == 0))

abbrev pub authority : AuthorityLibrary
authority = record {
  read_file = λ name. ok "config";
  unmarshal_config = λ text. err "unknown";
  decode_mapping = λ body. ok bob_mapping;
  encode_signed = λ s. if is_bob s then ok "signed" else err "unknown";
  Entity = ℕ;
  detach_sign = λ entity text. ok (entity ∷ []);
}

-- A signature is one byte, the signer, and node 1 is the authority.
abbrev pub checking : ClientLibrary
checking = record toy {
  decode_base64 = λ s. 1 ∷ [];
  check_detached_signature = λ ring text signature. check_first ring signature;
}

abbrev pub signed_json : BodyJson
signed_json = record json { unmarshal_create = λ b. ok (record bob_json { signature = "AQ==" }) }

pub signed_json-IsTrusted : IsTrusted checking authority signed_json 1 1
signed_json-IsTrusted = record {
  base64 = λ b. "AQ==";
  base64_reads = λ text sig h. ground arith;
  signature_checks = λ text sig h. ground arith;
  json_reads = λ signed body h. ground (arith, eq_iff signed.alias "bob", eq_iff signed.key "key");
}

handle_sign-create_signature_valid_example :
    (c : Create) × ((signed_json.unmarshal_create "signed" >>= to_create) ≡ ok c)
    × (create_signature_valid checking 1 c ≡ true)
    × (c.alias ≡ "bob")
    × (c.key ≡ "key")
    × (c.timestamp ≡ 0)
unfolding handle_sign sign_mapping
handle_sign-create_signature_valid_example =
    handle_sign-create_signature_valid checking authority signed_json 1 1 "request" "signed"
      bob_mapping signed_json-IsTrusted refl refl
