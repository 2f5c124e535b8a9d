-- ===== src/Server/HttpClient.antt =====
-- The HTTP client of src/distributepki/debug.go: `getSignedPut`, `doPut` and `doGet`. net/http and
-- encoding/json are parameters, and so is what a request does to the servers: a function on their state.
-- The lines of log.Print are left out; those of fmt.Println are a list, the first line first.
use distribute_pki.Base.{
  ℕ, ◌/◌, String, Option, none, some, List, [], ◌∷◌, nat_eq, string_eq, Result, ok, err,
}
use Prim.Native.String.{◌++◌ as append}
use distribute_pki.Pbft.Messages.{NodeConfig}
use distribute_pki.Util.Hostname.{get_hostname}
use distribute_pki.Server.ClientApi.{KeyMapping}

-- An answer: its status, what ioutil.ReadAll reads of its body, and the error that ends the reading.
pub record HttpAnswer : Type 0 where
  pub status : String
  pub body : String
  pub read_error : Option String

pub record HttpLibrary (World : Type 0) : Type 1 where
  -- json.NewEncoder(buf).Encode at KeyMapping
  pub encode_mapping : KeyMapping → Result String
  -- *http.Request and http.NewRequest on a method, an address and a body
  pub Outgoing : Type 0
  pub new_request : String → String → String → Result Outgoing
  -- req.URL.Query, Add, Encode and the assignment of req.URL.RawQuery
  pub add_query : String → String → Outgoing → Outgoing
  -- http.Post on an address, a content type and a body, and client.Do
  pub post : String → String → String → World → Result HttpAnswer × World
  pub do_request : Outgoing → World → Result HttpAnswer × World

-- What a call prints and returns: for a put the status, for a get the body too.
pub record Shown : Type 0 where
  pub printed : List String
  pub status : String
  pub body : String

abbrev pub nothing_shown : Shown
nothing_shown = record { printed = []; status = ""; body = "" }

abbrev pub failed_request : String → Shown
failed_request e = record {
  printed = "Errored when sending request to the server" ∷ e ∷ [];
  status = "";
  body = "";
}

abbrev pub shown_answer : HttpAnswer → Shown
shown_answer resp = record {
  printed = resp.status ∷ resp.body ∷ [];
  status = resp.status;
  body = resp.body;
}

abbrev pub sign_url : String
sign_url = "http://localhost:8080/sign"

abbrev pub json_type : String
json_type = "application/json;charset=utf8"

unfoldable pub node_url : NodeConfig → String
node_url node = append "http://" (get_hostname node.host node.client_port)

module _ {World : Type 0} (http : HttpLibrary World) where
  -- `getSignedPut` at a time in nanoseconds; a nil slice is the empty text.
  unfoldable pub get_signed_put : ℕ → String → String → World → String × World
  get_signed_put now alias key w =
      elim (http.encode_mapping (record { alias = alias; key = key; timestamp = now / 1000000 })) [
        | err e ↦ ("", w)
        | ok buf ↦
            let (outcome, w') = http.post sign_url json_type buf w in
            elim outcome [
              | err e ↦ ("", w')
              | ok resp ↦ elim resp.read_error [ none ↦ (resp.body, w') | some e ↦ ("", w') ]
            ]
      ]

  -- The end of `doPut` and of `doGet`: the request is sent.
  unfoldable pub send_request : http.Outgoing → World → Shown × World
  send_request req w =
      let (outcome, w') = http.do_request req w in
      elim outcome [ err e ↦ (failed_request e, w') | ok resp ↦ (shown_answer resp, w') ]

  -- `doPut`, which returns the status
  unfoldable pub do_put : ℕ → NodeConfig → String → String → World → Shown × World
  do_put now node alias key w =
      let (create, w') = get_signed_put now alias key w in
      elim (http.new_request "POST" (node_url node) create) [
        | err e ↦ (nothing_shown, w')
        | ok req ↦ send_request req w'
      ]

  -- `doGet`, which returns the status and the body
  unfoldable pub do_get : NodeConfig → String → World → Shown × World
  do_get node alias w = elim (http.new_request "GET" (node_url node) "") [
    | err e ↦ (nothing_shown, w)
    | ok req ↦ send_request (http.add_query "name" alias req) w
  ]
