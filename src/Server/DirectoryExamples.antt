-- ===== src/Server/DirectoryExamples.antt =====
-- The directory at concrete outputs, with a toy encoding that knows two operations.
use distribute_pki.Base.{
  ◌≡◌, refl, true, false, none, some, List, [], ◌∷◌, if◌then◌else◌, nat_eq, string_eq, ok, get, put,
}
use mathlib.Core.Option
use text.Mathlib.Text.{◌==◌ as str_eq}
use distribute_pki.Server.Keystore.{create_key, lookup_key, apply_snapshot}
use distribute_pki.Server.ClientApi.{ClientLibrary, operation_digest, set_digest}
use distribute_pki.Server.KeyNode.{
  Output, commit_sent, snapshot_sent, handle_updates, handle_output, handle_snapshot,
  handle_commit_sent, assigns, apply_commit, Server, mapped, node_of,
}
use distribute_pki.Server.Replicas.{SameKeys}
use distribute_pki.Server.Directory.{of_store, find, assign}
use distribute_pki.Server.Directory.Outputs.{
  publish, publish_all, lookup_at, find_in, lookup-handle_updates, apply_commit_comm,
}
use distribute_pki.Server.Http.{Request, get_method, handle_http}
use distribute_pki.Server.HttpExamples.{json}
use distribute_pki.Server.Answers.{answer_found, lookup_operation, handle_http-finds}
use distribute_pki.Server.Examples.{one_map}
use distribute_pki.Server.RequestExamples.{toy, create_bob, update_alice, server, asked}

abbrev two_operations : ClientLibrary
two_operations = record toy {
  gob_decode = λ text. if str_eq text "bob" then (create_bob, ok tt) else (update_alice, ok tt);
}

abbrev outputs : List Output
outputs = commit_sent (some "bob") ∷ commit_sent none ∷ commit_sent (some "alice") ∷ []

lookup-handle_updates_example :
    Option.map (lookup_at "alice") (handle_updates two_operations one_map outputs (mapped server))
    ≡ Option.map
        (find_in "alice")
        (publish_all two_operations one_map outputs (some (of_store server.store)))
lookup-handle_updates_example =
    lookup-handle_updates two_operations one_map outputs (mapped server) "alice"

-- What both sides of the last statement are.
found_alice :
    Option.map
      (find_in "alice")
      (publish_all two_operations one_map outputs (some (of_store server.store)))
    ≡ some (true, "new")
unfolding find publish_all publish assign create_key lookup_key get put
found_alice = refl

-- A null snapshot, then a lookup's commit, then one that creates a key.
ended :
    handle_updates two_operations one_map
      (snapshot_sent (0 ∷ []) ∷ commit_sent none ∷ commit_sent (some "bob") ∷ [])
      (mapped server)
    ≡ none
unfolding handle_updates handle_output handle_snapshot apply_snapshot handle_commit_sent assigns
ended = refl

published :
    publish_all two_operations one_map outputs (some (of_store server.store))
    ≡ some (some (assign "alice" "new" (assign "bob" "key" (of_store server.store))))
unfolding publish_all publish
published = refl

apply_commit_comm_example :
    SameKeys
      (apply_commit two_operations
        (some "bob")
        (apply_commit two_operations (some "alice") server)).store
      (apply_commit two_operations
        (some "alice")
        (apply_commit two_operations (some "bob") asked)).store
apply_commit_comm_example =
    apply_commit_comm two_operations (some "bob") (some "alice") "bob" "alice" "key" "new" server
      asked refl refl refl (λ alias. refl)

abbrev asked_for_alice : Request
asked_for_alice = record { method = get_method; name = "alice"; body = ok "" }

handle_http-finds_example :
    (after : Server) × (handle_updates two_operations one_map outputs (mapped server) ≡ some after)
    × (handle_http two_operations json 0 false asked_for_alice [] [] (node_of after)
        ≡ some (
          answer_found two_operations json one_map
              (find "alice" (assign "alice" "new" (assign "bob" "key" (of_store server.store)))),
          node_of after,
        ))
unfolding set_digest operation_digest
handle_http-finds_example =
    handle_http-finds two_operations json one_map 0 asked_for_alice
      (record (lookup_operation two_operations json one_map "alice") { digest = 11 }) outputs [] []
      (mapped server) (some (assign "alice" "new" (assign "bob" "key" (of_store server.store))))
      refl refl published
