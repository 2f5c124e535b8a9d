-- ===== src/Server/Authorised.antt =====
-- What the HTTP handlers of src/distributepki/keynode.go propose: only operations that someone with a
-- right to them signed.
use distribute_pki.Base.{
  String, ◌≡◌, refl, ap, ◌∙◌, subst, ◌⊎◌, inl, inr, Bool, Option, some, List, ◌∷◌, arith,
  Bool-cases, Option-cases, nat_eq, string_eq, Result-cases, Result, ok, err, ◌>>=◌,
}
use distribute_pki.Server.ClientApi.{
  Create, Update, KeyOperation, a_create, an_update, op_create, op_update, ClientLibrary,
  set_digest,
}
use distribute_pki.Server.KeyNode.{KeyNode, request_create, request_update, apply_commits}
use distribute_pki.Server.KeyRequests.{
  IsCreatable, IsUpdatable, Proposes, request_create-IsCreatable, request_update-IsUpdatable,
  request-refused,
}
use distribute_pki.Server.Acceptance.{proposed-apply_commits, proposed-wait_for_commit}
use distribute_pki.Server.Http.{
  BodyJson, Request, Response, to_create, to_update, finish_call, post_create, handle_post,
  put_update, handle_put, handle_http,
}

module _ (lib : ClientLibrary) where
  -- Behind an operation stand its digest and the signature of an authority, for a new key, or of the
  -- key that the alias had, for another one.
  abbrev pub IsSigned : lib.Ring → KeyOperation → KeyNode → Type 0
  IsSigned keyring op kn =
      ((c : Create) × IsCreatable lib keyring op c kn) ⊎ ((u : Update) × IsUpdatable lib op u kn)

  -- Nothing is proposed, or one operation that is signed.
  abbrev pub Extends : lib.Ring → KeyNode → KeyNode → Type 0
  Extends keyring kn k =
      (k.proposed ≡ kn.proposed)
      ⊎ ((op : KeyOperation) × (text : String) × (lib.gob_encode op ≡ ok text)
          × IsSigned keyring op kn
          × (k.proposed ≡ text ∷ kn.proposed))

  module _ (json : BodyJson) (keyring : lib.Ring) where
    finish_call-proposed :
        (op : KeyOperation) (between arrivals : List (Option String)) (outcome : Result (Unit {0}))
        (k : KeyNode)
        → (finish_call lib json op between arrivals (outcome, k)).1.proposed ≡ k.proposed
    unfolding finish_call
    finish_call-proposed op between arrivals (err e) k = refl
    finish_call-proposed op between arrivals (ok u) k =
        proposed-wait_for_commit lib json op arrivals (apply_commits lib between k)
        ∙ proposed-apply_commits lib between k

    finish_call-Extends :
        (op : KeyOperation) (between arrivals : List (Option String)) (outcome : Result (Unit {0}))
        (kn k : KeyNode)
        → (outcome ≡ ok tt → IsSigned keyring op kn × Proposes lib op kn k)
        → ((e : String) → outcome ≡ err e → k ≡ kn)
        → Extends keyring kn (finish_call lib json op between arrivals (outcome, k)).1
    finish_call-Extends op between arrivals outcome kn k good bad =
        let same = finish_call-proposed op between arrivals outcome k in
        elim (Result-cases outcome) [
          | inl (e, p) ↦ inl (same ∙ ap (λ (n : KeyNode). n.proposed) (bad e p))
          | inr (u, p) ↦
              let (signed, (text, encoded, proposes)) = good p in
              inr (op, text, encoded, signed, same ∙ ap (λ (n : KeyNode). n.proposed) proposes)
        ]

    post_create-Extends :
        (body : String) (between arrivals : List (Option String)) (kn k : KeyNode)
        (response : Response)
        → post_create lib json keyring body between arrivals kn ≡ some (response, k)
        → Extends keyring kn k
    unfolding post_create
    post_create-Extends body between arrivals kn k response h =
        elim (Result-cases (json.unmarshal_create body >>= to_create)) [
          | inl (e, p) ↦ inl (ground (arith, h, p))
          | inr (c, p) ↦
              elim (Option-cases
                (set_digest lib (record { op_code = op_create; op = a_create c; digest = 0 }))) [
                  | inl d ↦ ground (arith, h, p, d)
                  | inr (op, d) ↦ elim (Option-cases (request_create lib keyring op kn)) [
                    | inl q ↦ ground (arith, h, p, d, q)
                    | inr ((outcome, n), q) ↦
                        let same : (finish_call lib json op between arrivals (outcome, n)).1 ≡ k =
                          ground (arith, h, p, d, q) in
                        subst (Extends keyring kn) same (
                          finish_call-Extends op between arrivals outcome kn n
                            (λ o.
                              let (x, creatable, proposes) =
                                request_create-IsCreatable lib keyring op kn n
                                  (ground (arith, q, o)) in
                              (inl (x, creatable), proposes))
                            (λ e o.
                              request-refused lib keyring op kn n e (inl (ground (arith, q, o)))))
                  ]
                ]
        ]

    put_update-Extends :
        (body : String) (between arrivals : List (Option String)) (kn k : KeyNode)
        (response : Response)
        → put_update lib json body between arrivals kn ≡ some (response, k)
        → Extends keyring kn k
    unfolding put_update
    put_update-Extends body between arrivals kn k response h =
        elim (Result-cases (json.unmarshal_update body >>= to_update)) [
          | inl (e, p) ↦ inl (ground (arith, h, p))
          | inr (c, p) ↦
              elim (Option-cases
                (set_digest lib (record { op_code = op_update; op = an_update c; digest = 0 }))) [
                  | inl d ↦ ground (arith, h, p, d)
                  | inr (op, d) ↦ elim (Option-cases (request_update lib op kn)) [
                    | inl q ↦ ground (arith, h, p, d, q)
                    | inr ((outcome, n), q) ↦
                        let same : (finish_call lib json op between arrivals (outcome, n)).1 ≡ k =
                          ground (arith, h, p, d, q) in
                        subst (Extends keyring kn) same (
                          finish_call-Extends op between arrivals outcome kn n
                            (λ o.
                              let (x, updatable, proposes) =
                                request_update-IsUpdatable lib op kn n (ground (arith, q, o)) in
                              (inr (x, updatable), proposes))
                            (λ e o.
                              request-refused lib keyring op kn n e (inr (ground (arith, q, o)))))
                  ]
                ]
        ]

    -- Whatever request comes over HTTP and whatever the other goroutine commits meanwhile: the handler
    -- proposes nothing, or one operation, whose digest is valid and which an authority signed for an
    -- alias without a key, or the key that the store had for the alias signed.
    pub handle_http-Extends :
        (down : Bool) (r : Request) (between arrivals : List (Option String)) (kn k : KeyNode)
        (response : Response)
        → handle_http lib json keyring down r between arrivals kn ≡ some (response, k)
        → Extends keyring kn k
    unfolding handle_http handle_post handle_put
    handle_http-Extends down r between arrivals kn k response h = elim (Bool-cases down) [
      | inl d ↦ inl (ground (arith, h, d))
      | inr d ↦ elim (Result-cases r.body) [
        | inl (e, p) ↦ inl (ground (arith, h, d, p))
        | inr (body, p) ↦ ground (
          arith,
          h,
          d,
          p,
          post_create-Extends body between arrivals kn k response,
          put_update-Extends body between arrivals kn k response,
        )
      ]
    ]
