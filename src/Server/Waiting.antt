-- ===== src/Server/Waiting.antt =====
-- Which response a client gets that waits for the commit of its operation.
use distribute_pki.Base.{
  String, ◌≡◌, refl, ap, ◌∙◌, ◌⊎◌, inl, inr, false, Option, none, some, List, [], ◌∷◌, ◌++◌, arith,
  if◌then◌else◌, nat_eq, string_eq, ok, put, get-put_self,
}
use distribute_pki.Server.ClientApi.{
  Create, Update, KeyOperation, a_create, an_update, op_create, op_update, ClientLibrary,
  GobRoundTrips, set_digest,
}
use distribute_pki.Server.KeyNode.{KeyNode, request_create, request_update, apply_commits}
use distribute_pki.Server.KeyRequests.{digest_valid-set_digest}
use distribute_pki.Server.Http.{
  BodyJson, CreateJson, UpdateJson, Request, Response, http_error, post_method, put_method,
  put_update, handle_put, to_update, write_json, oldest, wait_for_commit, finish_call, post_create,
  handle_post, handle_http, to_create,
}
use distribute_pki.Server.Pending.{
  answer_of, first_answer, receive_error-apply_commits, first_answer-append, store-apply_commits,
}

module _ (lib : ClientLibrary) where
  module _ (json : BodyJson) where
    -- What the client is told.
    abbrev pub told : Option String → Response
    told answer =
        let error : String = elim answer [ none ↦ "Timeout on wait for Commit" | some r ↦ r ] in
        if string_eq.beq error "" then write_json json "" else http_error error 500

    -- The client gets the response of the first commit that is its operation's, or a timeout where none
    -- of the commits that arrive while it waits is; the store is as the commits leave it.
    wait_for_commit-response :
        (op : KeyOperation) (arrivals : List (Option String)) (kn : KeyNode)
        → ((wait_for_commit lib json op arrivals kn).0 ≡ told (first_answer lib op.digest arrivals))
          × ((wait_for_commit lib json op arrivals kn).1.store
              ≡ (apply_commits lib arrivals kn).store)
    unfolding wait_for_commit oldest
    wait_for_commit-response op arrivals kn =
        let registered : KeyNode = record kn { pending = put op.digest [] kn.pending } in
        (
          ap (λ error. if string_eq.beq error "" then write_json json "" else http_error error 500)
              (receive_error-apply_commits lib op.digest arrivals registered {responses = []}
                (get-put_self op.digest [] kn.pending)),
          store-apply_commits lib arrivals registered kn refl,
        )

    -- A call that got as far as to wait.
    pub record IsPosted (keyring : lib.Ring) (r : Request) (op : KeyOperation) (text : String)
        (kn k : KeyNode) : Type 0 where
      pub method : r.method ≡ post_method
      pub body : String
      pub reads : r.body ≡ ok body
      pub create_json : CreateJson
      pub parses : json.unmarshal_create body ≡ ok create_json
      pub create : Create
      pub converts : to_create create_json ≡ ok create
      pub digests :
          set_digest lib (record { op_code = op_create; op = a_create create; digest = 0 })
          ≡ some op
      pub accepted : request_create lib keyring op kn ≡ some (ok tt, k)
      pub encoded : lib.gob_encode op ≡ ok text

    -- The same for a PUT.
    pub record IsPut (r : Request) (op : KeyOperation) (text : String) (kn k : KeyNode)
        : Type 0 where
      pub method : r.method ≡ put_method
      pub body : String
      pub reads : r.body ≡ ok body
      pub update_json : UpdateJson
      pub parses : json.unmarshal_update body ≡ ok update_json
      pub update : Update
      pub converts : to_update update_json ≡ ok update
      pub digests :
          set_digest lib (record { op_code = op_update; op = an_update update; digest = 0 })
          ≡ some op
      pub accepted : request_update lib op kn ≡ some (ok tt, k)
      pub encoded : lib.gob_encode op ≡ ok text

    abbrev pub IsCall : lib.Ring → Request → KeyOperation → String → KeyNode → KeyNode → Type 0
    IsCall keyring r op text kn k = IsPosted keyring r op text kn k ⊎ IsPut r op text kn k

    handle_http-waits_posted :
        (keyring : lib.Ring) (r : Request) (op : KeyOperation) (text : String) (kn k : KeyNode)
        (between arrivals : List (Option String))
        → IsPosted keyring r op text kn k
        → handle_http lib json keyring false r between arrivals kn
          ≡ some (wait_for_commit lib json op arrivals (apply_commits lib between k))
    unfolding handle_http handle_post post_create finish_call
    handle_http-waits_posted keyring r op text kn k between arrivals p =
        ground (arith, p.method, p.reads, p.parses, p.converts, p.digests, p.accepted)

    handle_http-waits_put :
        (keyring : lib.Ring) (r : Request) (op : KeyOperation) (text : String) (kn k : KeyNode)
        (between arrivals : List (Option String))
        → IsPut r op text kn k
        → handle_http lib json keyring false r between arrivals kn
          ≡ some (wait_for_commit lib json op arrivals (apply_commits lib between k))
    unfolding handle_http handle_put put_update finish_call
    handle_http-waits_put keyring r op text kn k between arrivals p =
        ground (arith, p.method, p.reads, p.parses, p.converts, p.digests, p.accepted)

    pub handle_http-waits :
        (keyring : lib.Ring) (r : Request) (op : KeyOperation) (text : String) (kn k : KeyNode)
        (between arrivals : List (Option String))
        → IsCall keyring r op text kn k
        → handle_http lib json keyring false r between arrivals kn
          ≡ some (wait_for_commit lib json op arrivals (apply_commits lib between k))
    handle_http-waits keyring r op text kn k between arrivals (inl p) =
        handle_http-waits_posted keyring r op text kn k between arrivals p
    handle_http-waits keyring r op text kn k between arrivals (inr p) =
        handle_http-waits_put keyring r op text kn k between arrivals p

    -- The commit of the call's own operation answers it with the empty text.
    answer_of-call :
        (keyring : lib.Ring) (r : Request) (op : KeyOperation) (text : String) (kn k : KeyNode)
        → GobRoundTrips lib
        → IsCall keyring r op text kn k
        → answer_of lib op.digest (some text) ≡ some ""
    answer_of-call keyring r op text kn k trip (inl p) =
        ground (arith, trip op text p.encoded, (digest_valid-set_digest lib _ op p.digests).1)
    answer_of-call keyring r op text kn k trip (inr p) =
        ground (arith, trip op text p.encoded, (digest_valid-set_digest lib _ op p.digests).1)

    -- A client that posts a new key or puts another one is answered with the JSON of the empty text, if
    -- its operation is committed while it waits and no other commit under its digest came first: its
    -- request was read, `CreateKey` or `UpdateKey` accepted it, and the encoding round-trips.
    pub handle_http-committed :
        (keyring : lib.Ring) (r : Request) (op : KeyOperation) (text : String) (kn k : KeyNode)
        (between before after : List (Option String))
        → GobRoundTrips lib
        → IsCall keyring r op text kn k
        → first_answer lib op.digest before ≡ none
        → (last : KeyNode) × (handle_http lib json keyring false r between
              (before ++ some text ∷ after)
              kn
            ≡ some (write_json json "", last))
    handle_http-committed keyring r op text kn k between before after trip p none_before =
        let start : KeyNode = apply_commits lib between k in
        let waited = wait_for_commit lib json op (before ++ some text ∷ after) start in
        let answer = answer_of-call keyring r op text kn k trip p in
        let first : first_answer lib op.digest (before ++ some text ∷ after) ≡ some "" =
          ground (
            arith,
            first_answer-append lib op.digest before after (some text) none_before,
            answer,
          ) in
        (
          waited.1,
          handle_http-waits keyring r op text kn k between (before ++ some text ∷ after) p
              ∙ ap (λ w. some (w, waited.1))
                  ((wait_for_commit-response op (before ++ some text ∷ after) start).0
                    ∙ ap told first),
        )

    -- A client that posts a new key or puts another one is told of a timeout, if its operation is not
    -- committed after its wait was registered, also where it was committed between the proposal and the
    -- registration; and the store has what all these commits do.
    pub handle_http-timeout :
        (keyring : lib.Ring) (r : Request) (op : KeyOperation) (text : String) (kn k : KeyNode)
        (between arrivals : List (Option String))
        → IsCall keyring r op text kn k
        → first_answer lib op.digest arrivals ≡ none
        → (last : KeyNode) × (handle_http lib json keyring false r between arrivals kn
            ≡ some (http_error "Timeout on wait for Commit" 500, last))
          × (last.store ≡ (apply_commits lib arrivals (apply_commits lib between k)).store)
    handle_http-timeout keyring r op text kn k between arrivals p nothing =
        let start : KeyNode = apply_commits lib between k in
        let response = wait_for_commit-response op arrivals start in
        (
          (wait_for_commit lib json op arrivals start).1,
          handle_http-waits keyring r op text kn k between arrivals p
              ∙ ap (λ w. some (w, (wait_for_commit lib json op arrivals start).1))
                  (response.0 ∙ ap told nothing),
          response.1,
        )
