-- ===== src/Server/PuttingExamples.antt =====
-- The key of the toy Create is put on the console: the authority and the key server run under a toy
-- HTTP client that calls their handlers.
use text.Mathlib.Text.{◌==◌ as str_eq}
use text.Mathlib.TextEquality.{eq_iff}
use distribute_pki.Base.{
  ◌+◌, ◌/◌, String, ◌≡◌, refl, Bool, false, ◌&&◌, Option, none, some, [], ◌∷◌, arith, ◌==◌,
  if◌then◌else◌, nat_eq, string_eq, Result, ok, err, get,
}
use distribute_pki.Pbft.Fixtures.{node_config}
use distribute_pki.Server.ClientApi.{
  Create, KeyMapping, KeyOperation, a_create, ClientLibrary, operation_digest, set_digest,
}
use distribute_pki.Server.Keystore.{lookup_key}
use distribute_pki.Server.KeyNode.{KeyNode}
use distribute_pki.Server.Http.{Response, silent, written, http_error, post_method, handle_http}
use distribute_pki.Server.Authority.{IsTrusted, sign_mapping, handle_sign}
use distribute_pki.Server.HttpClient.{HttpAnswer, HttpLibrary, node_url, do_put}
use distribute_pki.Server.Putting.{IsWired, do_put-proposes}
use distribute_pki.Server.RequestExamples.{server}
use distribute_pki.Server.HttpExamples.{authority, checking, signed_json, signed_json-IsTrusted}

abbrev encoding : ClientLibrary
encoding = record checking { gob_encode = λ ko. ok "operation" }

abbrev answer_of : Response → HttpAnswer
answer_of silent = record { status = "200 OK"; body = ""; read_error = none }
answer_of (written body) = record { status = "200 OK"; body = body; read_error = none }
answer_of (http_error e code) = record { status = "error"; body = e; read_error = none }

abbrev served : Option (Response × KeyNode) → KeyNode → Result HttpAnswer × KeyNode
served none kn = (err "EOF", kn)
served (some (response, k)) kn = (ok (answer_of response), k)

abbrev is_bob_mapping : KeyMapping → Bool
is_bob_mapping m = str_eq m.alias "bob" && (str_eq m.key "key" && (m.timestamp == 0))

abbrev http : HttpLibrary KeyNode
http = record {
  encode_mapping = λ m. if is_bob_mapping m then ok "request" else err "unknown";
  Outgoing = String;
  new_request = λ method url body. ok body;
  add_query = λ key value r. r;
  post = λ url kind text kn.
      (ok (answer_of (handle_sign encoding authority (some 1) (some text))), kn);
  do_request = λ r kn.
      served
        (handle_http encoding signed_json 1 false
          (record { method = post_method; name = ""; body = ok r }) [] [] kn)
        kn;
}

http-IsWired : IsWired encoding signed_json authority 1 1 http (node_url (node_config 1)) [] []
http-IsWired = record {
  reads = λ m text h. ground (arith, eq_iff m.alias "bob", eq_iff m.key "key");
  signs = λ text body kn h. (answer_of (written body), ground (arith, h), refl, refl);
  serves = λ body kn k response h. (body, answer_of response, refl, ground (arith, h));
}

encoding-IsTrusted : IsTrusted encoding authority signed_json 1 1
encoding-IsTrusted = record {
  base64 = signed_json-IsTrusted.base64;
  base64_reads = signed_json-IsTrusted.base64_reads;
  signature_checks = signed_json-IsTrusted.signature_checks;
  json_reads = signed_json-IsTrusted.json_reads;
}

all_encoded :
    (ko : KeyOperation)
    → ((d : KeyOperation) × (set_digest encoding ko ≡ some d))
      × ((text : String) × (encoding.gob_encode ko ≡ ok text))
unfolding set_digest operation_digest
all_encoded ko = ((record ko { digest = ko.op_code + 8 }, refl), ("operation", refl))

do_put-proposes_example :
    (c : Create) × (op : KeyOperation) × (text : String) × (op.op ≡ a_create c)
    × (c.alias ≡ "bob")
    × (c.key ≡ "key")
    × (c.timestamp ≡ 0 / 1000000)
    × (encoding.gob_encode op ≡ ok text)
    × ((do_put http 0 (node_config 1) "bob" "key" server).1.proposed ≡ text ∷ server.proposed)
unfolding handle_sign sign_mapping lookup_key get
do_put-proposes_example =
    do_put-proposes encoding signed_json authority 1 1 http (node_config 1) [] [] 0 "bob" "key"
      "request" "signed" server http-IsWired encoding-IsTrusted all_encoded refl refl refl
