-- ===== src/Server/Putting.antt =====
-- A key from the debug console by the mock authority to the key server: src/distributepki/debug.go,
-- src/mock_authority/main.go and src/distributepki/keynode.go.
use distribute_pki.Base.{
  ℕ, ◌/◌, String, ◌≡◌, ap, ◌∙◌, false, Option, none, some, List, ◌∷◌, arith, nat_eq, string_eq, ok,
}
use distribute_pki.Pbft.Messages.{NodeConfig}
use distribute_pki.Server.Keystore.{lookup_key}
use distribute_pki.Server.ClientApi.{
  Create, KeyMapping, KeyOperation, a_create, op_create, ClientLibrary, set_digest,
}
use distribute_pki.Server.KeyNode.{KeyNode}
use distribute_pki.Server.KeyRequests.{digest_valid-set_digest}
use distribute_pki.Server.Http.{BodyJson, Response, written, post_method, handle_http}
use distribute_pki.Server.Acceptance.{handle_http-proposes}
use distribute_pki.Server.Authority.{
  AuthorityLibrary, handle_sign, IsTrusted, handle_sign-create_signature_valid,
}
use distribute_pki.Server.HttpClient.{
  HttpAnswer, HttpLibrary, sign_url, json_type, node_url, get_signed_put, send_request, do_put,
}

module _ (lib : ClientLibrary) where
  -- The console's HTTP client reaches the authority and the key server under the address: what a
  -- server's handler answers comes back, with what the handler makes of the key server's state. The
  -- authority reads the mapping that the console wrote.
  pub record IsWired (json : BodyJson) (auth : AuthorityLibrary) (entity : auth.Entity)
      (keyring : lib.Ring) (http : HttpLibrary KeyNode) (url : String)
      (between arrivals : List (Option String)) : Type 0 where
    pub reads :
        (m : KeyMapping) (text : String)
        → http.encode_mapping m ≡ ok text
        → auth.decode_mapping text ≡ ok m
    pub signs :
        (text body : String) (kn : KeyNode)
        → handle_sign lib auth (some entity) (some text) ≡ written body
        → (answer : HttpAnswer) × (http.post sign_url json_type text kn ≡ (ok answer, kn))
          × (answer.body ≡ body)
          × (answer.read_error ≡ none)
    pub serves :
        (body : String) (kn k : KeyNode) (response : Response)
        → handle_http lib json keyring false
            (record { method = post_method; name = ""; body = ok body })
            between
            arrivals
            kn
          ≡ some (response, k)
        → (r : http.Outgoing) × (answer : HttpAnswer) × (http.new_request "POST" url body ≡ ok r)
          × (http.do_request r kn ≡ (ok answer, k))

  get_signed_put-signs :
      (json : BodyJson) (auth : AuthorityLibrary) (entity : auth.Entity) (keyring : lib.Ring)
      (http : HttpLibrary KeyNode) (url : String) (between arrivals : List (Option String))
      (now : ℕ) (alias key buf body : String) (kn : KeyNode)
      → IsWired json auth entity keyring http url between arrivals
      → http.encode_mapping (record { alias = alias; key = key; timestamp = now / 1000000 })
        ≡ ok buf
      → handle_sign lib auth (some entity) (some buf) ≡ written body
      → get_signed_put http now alias key kn ≡ (body, kn)
  unfolding get_signed_put
  get_signed_put-signs json auth entity keyring http url between arrivals now alias key buf body kn
        wired e h =
      let (answer, posted, same, complete) = wired.signs buf body kn h in
      ground (arith, e, posted, same, complete)

  do_put-posts :
      (json : BodyJson) (auth : AuthorityLibrary) (entity : auth.Entity) (keyring : lib.Ring)
      (http : HttpLibrary KeyNode) (node : NodeConfig) (between arrivals : List (Option String))
      (now : ℕ) (alias key body : String) (kn k : KeyNode) (response : Response)
      → IsWired json auth entity keyring http (node_url node) between arrivals
      → get_signed_put http now alias key kn ≡ (body, kn)
      → handle_http lib json keyring false
          (record { method = post_method; name = ""; body = ok body })
          between
          arrivals
          kn
        ≡ some (response, k)
      → (do_put http now node alias key kn).1 ≡ k
  unfolding do_put send_request
  do_put-posts json auth entity keyring http node between arrivals now alias key body kn k response
        wired e h =
      let (r, answer, made, sent) = wired.serves body kn k response h in
      ground (arith, e, made, sent)

  -- A key that is put on the console for a new alias is proposed by the key server that the console
  -- sends it to, as a Create of just that alias and key with the time in milliseconds, and nothing else
  -- is proposed: the authority signs the mapping, the key server has the authority's key and is up, the
  -- HTTP client reaches both, and operations can be encoded.
  pub do_put-proposes :
      (json : BodyJson) (auth : AuthorityLibrary) (entity : auth.Entity) (keyring : lib.Ring)
      (http : HttpLibrary KeyNode) (node : NodeConfig) (between arrivals : List (Option String))
      (now : ℕ) (alias key buf body : String) (kn : KeyNode)
      → IsWired json auth entity keyring http (node_url node) between arrivals
      → IsTrusted lib auth json entity keyring
      → ((ko : KeyOperation)
          → ((d : KeyOperation) × (set_digest lib ko ≡ some d))
            × ((text : String) × (lib.gob_encode ko ≡ ok text)))
      → http.encode_mapping (record { alias = alias; key = key; timestamp = now / 1000000 })
        ≡ ok buf
      → handle_sign lib auth (some entity) (some buf) ≡ written body
      → (lookup_key alias kn.store).0 ≡ false
      → (c : Create) × (op : KeyOperation) × (text : String) × (op.op ≡ a_create c)
        × (c.alias ≡ alias)
        × (c.key ≡ key)
        × (c.timestamp ≡ now / 1000000)
        × (lib.gob_encode op ≡ ok text)
        × ((do_put http now node alias key kn).1.proposed ≡ text ∷ kn.proposed)
  do_put-proposes json auth entity keyring http node between arrivals now alias key buf body kn
        wired trusted encodes e h fresh =
      let m : KeyMapping = record { alias = alias; key = key; timestamp = now / 1000000 } in
      let (c, parsed, signed, a, b, t) =
        handle_sign-create_signature_valid lib auth json entity keyring buf body m trusted
          (wired.reads m buf e) h in
      let (op, d) = (encodes (record { op_code = op_create; op = a_create c; digest = 0 })).0 in
      let (text, g) = (encodes op).1 in
      let (response, k, ran, proposed) =
        handle_http-proposes lib json keyring body c op text kn between arrivals parsed d signed
          (ground (arith, a, fresh)) g in
      let put_state =
        do_put-posts json auth entity keyring http node between arrivals now alias key body kn k
          response wired
          (get_signed_put-signs json auth entity keyring http (node_url node) between arrivals now
            alias key buf body kn wired e h)
          ran in
      (
        c,
        op,
        text,
        ap (λ (o : KeyOperation). o.op) (digest_valid-set_digest lib _ op d).1,
        a,
        b,
        t,
        g,
        ap (λ (n : KeyNode). n.proposed) put_state ∙ proposed,
      )
