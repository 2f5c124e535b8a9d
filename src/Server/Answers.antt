-- ===== src/Server/Answers.antt =====
-- What a client that asks for a key is answered: GET in src/distributepki/keynode.go.
use distribute_pki.Base.{
  String, ◌≡◌, inl, inr, Bool, false, Option, none, some, List, arith, if◌then◌else◌, Option-cases,
  nat_eq, string_eq,
}
use distribute_pki.Server.Keystore.{Alias, Key, lookup_key, KeysJson}
use distribute_pki.Server.ClientApi.{KeyOperation, a_lookup, op_lookup, ClientLibrary, set_digest}
use distribute_pki.Server.KeyNode.{KeyNode, request_lookup, Output, handle_updates, Server, node_of}
use distribute_pki.Server.KeyRequests.{digest_valid-set_digest}
use distribute_pki.Server.Http.{
  BodyJson, Request, Response, http_error, get_method, write_json, handle_get, handle_http,
}
use distribute_pki.Server.Directory.{Directory}
use distribute_pki.Server.Directory.Outputs.{
  publish_all, view, find_in, lookup_at-view, view-handle_updates,
}

module _ (lib : ClientLibrary) (json : BodyJson) (keys_json : KeysJson) where
  -- The answer that a lookup's result makes.
  abbrev pub answer_found : Bool × Key → Response
  answer_found found = if found.0 then write_json json found.1 else http_error "Key not found" 404

  abbrev pub lookup_operation : Alias → KeyOperation
  lookup_operation alias = record {
    op_code = op_lookup;
    op = a_lookup (record { alias = alias; client = none });
    digest = 0;
  }

  request_lookup-finds :
      (alias : Alias) (op : KeyOperation) (kn : KeyNode)
      → set_digest lib (lookup_operation alias) ≡ some op
      → request_lookup lib op kn ≡ some (lookup_key alias kn.store)
  unfolding request_lookup
  request_lookup-finds alias op kn d =
      let law = digest_valid-set_digest lib (lookup_operation alias) op d in
      ground (arith, law.0, law.1)

  handle_get-answers :
      (r : Request) (op : KeyOperation) (kn : KeyNode)
      → set_digest lib (lookup_operation r.name) ≡ some op
      → handle_get lib json r kn ≡ some (answer_found (lookup_key r.name kn.store))
  unfolding handle_get
  handle_get-answers r op kn d = ground (arith, d, request_lookup-finds r.name op kn d)

  -- After whatever the consensus node sent the key server, so long as that did not end the process, GET
  -- for an alias is answered with the JSON of the key that the directory of these outputs has for it,
  -- or with 404 where it has none, and nothing changes: the server is up, and the operation can be
  -- encoded.
  pub handle_http-finds :
      (keyring : lib.Ring) (r : Request) (op : KeyOperation) (outputs : List Output)
      (between arrivals : List (Option String)) (server : Server) (d : Option Directory)
      → r.method ≡ get_method
      → set_digest lib (lookup_operation r.name) ≡ some op
      → publish_all lib keys_json outputs (view server) ≡ some d
      → (after : Server) × (handle_updates lib keys_json outputs server ≡ some after)
        × (handle_http lib json keyring false r between arrivals (node_of after)
            ≡ some (answer_found (find_in r.name d), node_of after))
  unfolding handle_http
  handle_http-finds keyring r op outputs between arrivals server d g e h =
      let law = view-handle_updates lib keys_json outputs server in
      elim (Option-cases (handle_updates lib keys_json outputs server)) [
        | inl p ↦ ground (arith, law)
        | inr (after, p) ↦ (
          after,
          p,
          ground (
            arith,
            g,
            handle_get-answers r op (node_of after) e,
            law,
            lookup_at-view r.name after,
          ),
        )
      ]
