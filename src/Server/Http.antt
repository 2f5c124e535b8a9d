-- ===== src/Server/Http.antt =====
-- The HTTP side of src/distributepki/keynode.go: `handlerWithContext`, `waitForCommit`, `writeJSON`, and
-- the conversions of src/distributepki/clientapi/interface.go that it uses. A request is its method, the
-- `name` of its query and what reading its body gives. The commits that the other goroutine handles
-- during a call are arguments: `between` those from the proposal to the registration of the request,
-- `arrivals` those from there until the wait ends, by a response or after ten seconds.
use distribute_pki.Base.{
  ℕ, String, Bool, Option, none, some, List, [], ◌∷◌, if◌then◌else◌, nat_eq, string_eq, Result, ok,
  err, ◌>>=◌, and_then, get, put, remove,
}
use distribute_pki.Server.ClientApi.{
  Create, Update, KeyOperation, a_create, an_update, a_lookup, op_create, op_update, op_lookup,
  ClientLibrary, set_digest,
}
use distribute_pki.Server.KeyNode.{
  KeyNode, request_create, request_update, request_lookup, apply_commits,
}

pub record CreateJson : Type 0 where
  pub alias : String
  pub key : String
  pub timestamp : ℕ
  pub signature : String

pub record UpdateJson : Type 0 where
  pub alias : String
  pub key : String
  pub timestamp : ℕ
  pub signature : String

unfoldable pub to_create : CreateJson → Result Create
to_create create_json = ok (record {
  alias = create_json.alias;
  key = create_json.key;
  timestamp = create_json.timestamp;
  client = none;
  signature = create_json.signature;
})

unfoldable pub to_update : UpdateJson → Result Update
to_update update_json = ok (record {
  alias = update_json.alias;
  key = update_json.key;
  timestamp = update_json.timestamp;
  client = none;
  signature = update_json.signature;
})

-- encoding/json: json.Unmarshal at *CreateJSON and *UpdateJSON, json.Marshal at a string
pub record BodyJson : Type 0 where
  pub unmarshal_create : String → Result CreateJson
  pub unmarshal_update : String → Result UpdateJson
  pub marshal_string : String → Result String

pub data Method : Type 0 where
  get_method : Method
  post_method : Method
  put_method : Method
  another_method : Method

pub record Request : Type 0 where
  pub method : Method
  pub name : String
  pub body : Result String

-- What is written to the client: nothing, a body with status 200, or an error with its status.
pub data Response : Type 0 where
  silent : Response
  written : String → Response
  http_error : String → ℕ → Response

unfoldable pub write_json : BodyJson → String → Response
write_json json msg = elim (json.marshal_string msg) [
  | err e ↦ http_error "Error converting results to json" 500
  | ok body ↦ written body
]

-- What is received from a channel that holds the responses, the latest first.
unfoldable pub oldest : List String → Option String
oldest [] = none
oldest (response ∷ responses) = elim (oldest responses) [
  | none ↦ some response
  | some first ↦ some first
]

-- The error that `waitForCommit` reads from the channel under the digest, or that of the timeout.
unfoldable pub receive_error : Option (List String) → String
receive_error none = "Timeout on wait for Commit"
receive_error (some responses) = elim (oldest responses) [
  | none ↦ "Timeout on wait for Commit"
  | some error ↦ error
]

module _ (lib : ClientLibrary) (json : BodyJson) where
  -- `waitForCommit`, where no other request with the same digest waits.
  unfoldable pub wait_for_commit :
      KeyOperation → List (Option String) → KeyNode → Response × KeyNode
  wait_for_commit op arrivals kn =
      let registered : KeyNode = record kn { pending = put op.digest [] kn.pending } in
      let after : KeyNode = apply_commits lib arrivals registered in
      let error : String = receive_error (get op.digest after.pending) in
      (
        (if string_eq.beq error "" then write_json json "" else http_error error 500),
        record after { pending = remove op.digest after.pending },
      )

  unfoldable pub handle_get : Request → KeyNode → Option Response
  handle_get r kn =
      and_then
        (set_digest lib (record {
          op_code = op_lookup;
          op = a_lookup (record { alias = r.name; client = none });
          digest = 0;
        }))
        λ op. and_then (request_lookup lib op kn) λ answer.
          some (if answer.0 then write_json json answer.1 else http_error "Key not found" 404)

  -- After the operation was proposed or refused.
  unfoldable pub finish_call :
      KeyOperation
      → List (Option String)
      → List (Option String)
      → Result (Unit {0}) × KeyNode
      → Response × KeyNode
  finish_call op between arrivals (err e, kn) = (http_error e 400, kn)
  finish_call op between arrivals (ok u, kn) =
      wait_for_commit op arrivals (apply_commits lib between kn)

  -- The branch of POST, once its body is read.
  unfoldable pub post_create :
      lib.Ring
      → String
      → List (Option String)
      → List (Option String)
      → KeyNode
      → Option (Response × KeyNode)
  post_create keyring body between arrivals kn = elim (json.unmarshal_create body >>= to_create) [
    | err e ↦ some (http_error e 500, kn)
    | ok create ↦
        and_then (set_digest lib (record { op_code = op_create; op = a_create create; digest = 0 }))
          λ op.
            and_then (request_create lib keyring op kn)
              λ result. some (finish_call op between arrivals result)
  ]

  unfoldable pub handle_post :
      lib.Ring
      → Request
      → List (Option String)
      → List (Option String)
      → KeyNode
      → Option (Response × KeyNode)
  handle_post keyring r between arrivals kn = elim r.body [
    | err e ↦ some (http_error "Error reading body." 500, kn)
    | ok body ↦ post_create keyring body between arrivals kn
  ]

  -- The branch of PUT, once its body is read.
  unfoldable pub put_update :
      String → List (Option String) → List (Option String) → KeyNode → Option (Response × KeyNode)
  put_update body between arrivals kn = elim (json.unmarshal_update body >>= to_update) [
    | err e ↦ some (http_error e 500, kn)
    | ok update ↦
        and_then
          (set_digest lib (record { op_code = op_update; op = an_update update; digest = 0 }))
          λ op.
            and_then (request_update lib op kn)
              λ result. some (finish_call op between arrivals result)
  ]

  unfoldable pub handle_put :
      Request → List (Option String) → List (Option String) → KeyNode → Option (Response × KeyNode)
  handle_put r between arrivals kn = elim r.body [
    | err e ↦ some (http_error "Error reading key." 500, kn)
    | ok body ↦ put_update body between arrivals kn
  ]

  -- `handlerWithContext`; `none` is the end of the process.
  unfoldable pub handle_http :
      lib.Ring
      → Bool
      → Request
      → List (Option String)
      → List (Option String)
      → KeyNode
      → Option (Response × KeyNode)
  handle_http keyring down r between arrivals kn =
      if down then some (silent, kn) else elim r.method [
        | get_method ↦ and_then (handle_get r kn) λ response. some (response, kn)
        | post_method ↦ handle_post keyring r between arrivals kn
        | put_method ↦ handle_put r between arrivals kn
        | another_method ↦ some (silent, kn)
      ]
