-- ===== src/Server/Acceptance.antt =====
-- What `CreateKey` and the handler of POST do with a Create that they have no ground to refuse.
use distribute_pki.Base.{
  String, ◌≡◌, refl, ◌∙◌, inl, inr, true, false, Option, none, some, List, [], ◌∷◌, arith, nat_eq,
  string_eq, Result-cases, ok, ◌>>=◌, put,
}
use distribute_pki.Server.Keystore.{lookup_key}
use distribute_pki.Server.ClientApi.{
  Create, KeyOperation, a_create, op_create, ClientLibrary, set_digest, create_signature_valid,
}
use distribute_pki.Server.KeyNode.{
  KeyNode, propose, propose_create, guard_create, request_create, respond_pending_request,
  apply_operation, apply_commit, apply_commits,
}
use distribute_pki.Server.KeyRequests.{digest_valid-set_digest}
use distribute_pki.Server.Http.{
  BodyJson, Response, post_method, to_create, wait_for_commit, handle_http,
}
use distribute_pki.Server.Waiting.{handle_http-waits}

module _ (lib : ClientLibrary) where
  -- `CreateKey` accepts a Create under its own digest, with a valid signature and a new alias.
  request_create-accepts :
      (keyring : lib.Ring) (c : Create) (op : KeyOperation) (text : String) (kn : KeyNode)
      → set_digest lib (record { op_code = op_create; op = a_create c; digest = 0 }) ≡ some op
      → create_signature_valid lib keyring c ≡ true
      → (lookup_key c.alias kn.store).0 ≡ false
      → lib.gob_encode op ≡ ok text
      → request_create lib keyring op kn ≡ some (ok tt, record kn { proposed = text ∷ kn.proposed })
  unfolding request_create guard_create propose_create propose
  request_create-accepts keyring c op text kn d s fresh e =
      let law = digest_valid-set_digest lib _ op d in ground (arith, law.0, law.1, s, fresh, e)

  pub proposed-apply_commit :
      (operation : Option String) (kn : KeyNode)
      → (apply_commit lib operation kn).proposed ≡ kn.proposed
  unfolding apply_commit apply_operation respond_pending_request
  proposed-apply_commit none kn = refl
  proposed-apply_commit (some text) kn = ground arith

  pub proposed-apply_commits :
      (operations : List (Option String)) (kn : KeyNode)
      → (apply_commits lib operations kn).proposed ≡ kn.proposed
  unfolding apply_commits
  proposed-apply_commits [] kn = refl
  proposed-apply_commits (operation ∷ operations) kn =
      proposed-apply_commits operations (apply_commit lib operation kn)
      ∙ proposed-apply_commit operation kn

  pub proposed-wait_for_commit :
      (json : BodyJson) (op : KeyOperation) (arrivals : List (Option String)) (kn : KeyNode)
      → (wait_for_commit lib json op arrivals kn).1.proposed ≡ kn.proposed
  unfolding wait_for_commit
  proposed-wait_for_commit json op arrivals kn =
      proposed-apply_commits arrivals (record kn { pending = put op.digest [] kn.pending })

  -- A POST whose body is read as a Create with a valid signature and a new alias proposes that Create
  -- under its own digest, and nothing else.
  pub handle_http-proposes :
      (json : BodyJson) (keyring : lib.Ring) (body : String) (c : Create) (op : KeyOperation)
      (text : String) (kn : KeyNode) (between arrivals : List (Option String))
      → (json.unmarshal_create body >>= to_create) ≡ ok c
      → set_digest lib (record { op_code = op_create; op = a_create c; digest = 0 }) ≡ some op
      → create_signature_valid lib keyring c ≡ true
      → (lookup_key c.alias kn.store).0 ≡ false
      → lib.gob_encode op ≡ ok text
      → (response : Response) × (k : KeyNode) × (handle_http lib json keyring false
            (record { method = post_method; name = ""; body = ok body })
            between
            arrivals
            kn
          ≡ some (response, k))
        × (k.proposed ≡ text ∷ kn.proposed)
  handle_http-proposes json keyring body c op text kn between arrivals parsed d signed fresh g =
      let k : KeyNode = record kn { proposed = text ∷ kn.proposed } in
      let start : KeyNode = apply_commits lib between k in
      let waited = wait_for_commit lib json op arrivals start in
      elim (Result-cases (json.unmarshal_create body)) [
        | inl (x, p) ↦ ground (arith, parsed)
        | inr (create_json, p) ↦ (
          waited.0,
          waited.1,
          handle_http-waits lib json keyring _ op text kn k between arrivals (
              inl (record {
                method = refl;
                body = body;
                reads = refl;
                create_json = create_json;
                parses = p;
                create = c;
                converts = ground (arith, parsed);
                digests = d;
                accepted = request_create-accepts keyring c op text kn d signed fresh g;
                encoded = g;
              })),
          proposed-wait_for_commit json op arrivals start ∙ proposed-apply_commits between k,
        )
      ]
