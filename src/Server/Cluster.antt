-- ===== src/Server/Cluster.antt =====
-- The key server on top of the consensus node: from a request at the primary to a lookup at a backup.
use distribute_pki.Base.{
  ◌≤◌, String, ◌≡◌, refl, sym, ap, ◌∙◌, subst, ◌⊎◌, inl, inr, true, false, Option, some, List, [],
  ◌∷◌, ◌++◌, map, arith, if◌then◌else◌, Option-cases, nat_eq, string_eq, length, All, ok, Holds,
}
use distribute_pki.Pbft.SlotId.{before}
use distribute_pki.Pbft.Messages.{SignedPrePrepare}
use distribute_pki.Pbft.Library.{Library, SignaturesCheck, Host}
use distribute_pki.Pbft.Signing.{sign_pre_prepare}
use distribute_pki.Pbft.Node.{Node, broadcast, pre_prepare, two_f}
use distribute_pki.Pbft.Normal.{issued_id, handle_client_request, handle_pre_prepare}
use distribute_pki.Pbft.Commits.{handle_commits}
use distribute_pki.Pbft.Votes.{slot_at}
use distribute_pki.Pbft.Deliveries.{delivered, collect}
use distribute_pki.Pbft.Placement.{IsLeading, IsFollowing}
use distribute_pki.Pbft.Votes.{IsPeer}
use distribute_pki.Pbft.Voting.{Voter, IsVoting, Votes}
use distribute_pki.Pbft.Phases.{vote_of, request-delivered}
use text.Mathlib.Text.{◌==◌ as str_eq}
use distribute_pki.Server.Keystore.{Alias, Key, lookup_key, KeysJson}
use distribute_pki.Server.ClientApi.{KeyOperation, ClientLibrary, GobRoundTrips}
use distribute_pki.Server.KeyNode.{
  KeyNode, Server, mapped, handle_commit_sent, request_create, request_update, apply_commit, Output,
  commit_sent, handle_output, handle_updates,
}
use distribute_pki.Server.KeyRequests.{
  Proposes, request_create-IsCreatable, request_update-IsUpdatable,
}
use distribute_pki.Server.Directory.{of_store, find, find-assign}
use distribute_pki.Server.Directory.Outputs.{
  entry_of, assign_entry, committed_entry, of_store-apply_commit,
}

-- The commits that come over the channel, the oldest first, of what the consensus node delivered, the
-- latest first.
abbrev pub commit_outputs : List (Option String) → List Output
commit_outputs [] = []
commit_outputs (operation ∷ earlier) = commit_outputs earlier ++ (commit_sent operation ∷ [])

module _ (lib : ClientLibrary) (json : KeysJson) where
  handle_updates-last :
      (outputs : List Output) (operation : Option String) (server : Server) {kn : KeyNode}
      → handle_updates lib json outputs server ≡ some (mapped kn)
      → handle_updates lib json (outputs ++ (commit_sent operation ∷ [])) server
        ≡ some (mapped (apply_commit lib operation kn))
  unfolding handle_updates handle_output handle_commit_sent
  handle_updates-last [] operation server {kn} h =
      subst
        (Holds (λ (s : Server).
          handle_updates lib json (commit_sent operation ∷ []) s
          ≡ some (mapped (apply_commit lib operation kn))))
        (sym h) refl
  handle_updates-last (output ∷ outputs) operation server {kn} h =
      elim (Option-cases (handle_output lib json output server)) [
        | inl e ↦ ground arith
        | inr (next, e) ↦ ground (arith, handle_updates-last outputs operation next {kn = kn})
      ]

  -- The key server, whose map is not nil, after its loop took all that its consensus node delivered.
  abbrev pub served : List (Option String) → KeyNode → KeyNode
  served [] kn = kn
  served (operation ∷ earlier) kn = apply_commit lib operation (served earlier kn)

  pub handle_updates-served :
      (operations : List (Option String)) (kn : KeyNode)
      → handle_updates lib json (commit_outputs operations) (mapped kn)
        ≡ some (mapped (served operations kn))
  unfolding handle_updates
  handle_updates-served [] kn = refl
  handle_updates-served (operation ∷ earlier) kn =
      handle_updates-last (commit_outputs earlier) operation (mapped kn)
        (handle_updates-served earlier kn)

  -- The loop takes what the consensus node delivered and comes to a state whose map is not nil.
  abbrev pub Serves : List (Option String) → KeyNode → KeyNode → Type 0
  Serves operations kn after =
      handle_updates lib json (commit_outputs operations) (mapped kn) ≡ some (mapped after)

module _ (lib : ClientLibrary) (json : KeysJson) (pbft : Library) where
  -- An operation that `CreateKey` or `UpdateKey` accepts has an entry to write, and is proposed.
  accepted_entry :
      (keyring : lib.Ring) (args : KeyOperation) (kn k : KeyNode)
      → (request_create lib keyring args kn ≡ some (ok tt, k))
        ⊎ (request_update lib args kn ≡ some (ok tt, k))
      → (alias : Alias) × (key : Key) × (entry_of args ≡ some (alias, key)) × Proposes lib args kn k
  accepted_entry keyring args kn k (inl h) =
      let (c, creatable, proposes) = request_create-IsCreatable lib keyring args kn k h in
      (c.alias, c.key, ground (arith, creatable.code, creatable.operation), proposes)
  accepted_entry keyring args kn k (inr h) =
      let (u, updatable, proposes) = request_update-IsUpdatable lib args kn k h in
      (u.alias, u.key, ground (arith, updatable.code, updatable.operation), proposes)

  lookup-apply_commit_entry :
      (args : KeyOperation) (request : String) (alias j : Alias) (key : Key) (other : KeyNode)
      → lib.gob_decode request ≡ (args, ok tt)
      → entry_of args ≡ some (alias, key)
      → lookup_key j (apply_commit lib (some request) other).store
        ≡ (if str_eq alias j then (true, key) else lookup_key j other.store)
  unfolding find
  lookup-apply_commit_entry args request alias j key other d e =
      let entry : committed_entry lib (some request) ≡ some (alias, key) = ground (arith, d, e) in
      ap (find j) (
        of_store-apply_commit lib (some request) other
        ∙ ap (λ p. assign_entry p (of_store other.store)) entry)
      ∙ find-assign alias j key (of_store other.store)

  lookup-served :
      (keyring : lib.Ring) (args : KeyOperation) (kn k other : KeyNode) (request : String)
      (earlier : List (Option String)) (j : Alias)
      → GobRoundTrips lib
      → (request_create lib keyring args kn ≡ some (ok tt, k))
        ⊎ (request_update lib args kn ≡ some (ok tt, k))
      → k.proposed ≡ request ∷ kn.proposed
      → (alias : Alias) × (key : Key) × (entry_of args ≡ some (alias, key))
        × (lookup_key j (served lib json (some request ∷ earlier) other).store ≡ (
            if str_eq alias j
            then (true, key)
            else lookup_key j (served lib json earlier other).store))
  lookup-served keyring args kn k other request earlier j trip h e =
      let (alias, key, entry, (text, encoded, same)) = accepted_entry keyring args kn k h in
      let texts : text ≡ request = ground (arith, same, e) in
      let decoded = subst (λ t. lib.gob_decode t ≡ (args, ok tt)) texts (trip args text encoded) in
      (
        alias,
        key,
        entry,
        lookup-apply_commit_entry args request alias j key (served lib json earlier other) decoded
            entry,
      )

  -- A key that the key server of the primary accepts by `CreateKey` or `UpdateKey` is found at the key
  -- server of a backup, and every other alias answers there as before. The primary's node takes the proposal as a
  -- request and broadcasts its pre-prepare; each voter takes it, broadcasts its prepare and, once the
  -- prepares of a quorum came, its vote to commit; the backup's node takes the pre-prepare and these
  -- votes, and the key server's loop takes what its node delivered and goes on. The encoding of operations round-trips;
  -- the nodes are in one view and in no view change; the slot is empty at each, between its water marks,
  -- and at the backup not before the last checkpoint and not committed; the voters know those whose
  -- prepares come and the backup knows the voters, and the votes bring those of its slot to 2f distinct
  -- nodes; what is signed checks, and the key server of the backup takes no snapshot and its map was not nil.
  pub accepted-lookup :
      (leader backup : Host pbft) (l b : Node) {signed : SignedPrePrepare} (v : Voter pbft)
      (vs : List (Voter pbft)) (keyring : lib.Ring) (args : KeyOperation) (kn k other : KeyNode)
      (request : String) (j : Alias)
      → GobRoundTrips lib
      → (request_create lib keyring args kn ≡ some (ok tt, k))
        ⊎ (request_update lib args kn ≡ some (ok tt, k))
      → k.proposed ≡ request ∷ kn.proposed
      → SignaturesCheck pbft
      → IsLeading pbft leader request l
      → IsFollowing pbft leader backup l b
      → sign_pre_prepare pbft
          (record { number = issued_id pbft leader l; request_digest = pbft.sha256 request })
          leader.entity
        ≡ ok signed
      → before (issued_id pbft leader l) b.last_checkpoint.number ≡ false
      → (slot_at (issued_id pbft leader l) b).committed ≡ false
      → All (IsVoting pbft leader request l) (v ∷ vs)
      → All (λ w. IsPeer pbft backup w.host.entity w.host.id) (v ∷ vs)
      → two_f pbft backup
        ≤ length
            (collect (map (vote_of pbft) (v ∷ vs)) (slot_at (issued_id pbft leader l) b).commits)
      → (alias : Alias) × (key : Key) × (entry_of args ≡ some (alias, key))
        × ((handle_client_request pbft leader request l).sent
            ≡ broadcast (pre_prepare (record { signed_message = signed; request = request }))
              ∷ l.sent)
        × All (Votes pbft (record { signed_message = signed; request = request })) (v ∷ vs)
        × (n : Node) × (handle_pre_prepare pbft backup
              (record { signed_message = signed; request = request })
              b
            ≡ some n)
        × (earlier : KeyNode) × (after : KeyNode) × Serves lib json (delivered b) other earlier
        × Serves lib json
            (delivered (handle_commits pbft backup (map (vote_of pbft) (v ∷ vs)) n))
            other
            after
        × (lookup_key j after.store
            ≡ (if str_eq alias j then (true, key) else lookup_key j earlier.store))
  accepted-lookup leader backup l b {signed} v vs keyring args kn k other request j trip h e check
        lead f s recent fresh voting known enough =
      let (sent, votes, n, handled, came) =
        request-delivered pbft leader backup request l b {signed = signed} v vs check lead f s
          recent fresh voting known enough in
      let (alias, key, entry, found) =
        lookup-served keyring args kn k other request (delivered b) j trip h e in
      (
        alias,
        key,
        entry,
        sent,
        votes,
        n,
        handled,
        served lib json (delivered b) other,
        served lib json (some request ∷ delivered b) other,
        handle_updates-served lib json (delivered b) other,
        subst (λ d. Serves lib json d other (served lib json (some request ∷ delivered b) other))
            (sym came) (handle_updates-served lib json (some request ∷ delivered b) other),
        found,
      )
