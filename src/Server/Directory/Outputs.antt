-- ===== src/Server/Directory/Outputs.antt =====
-- What the key server's loop does to the directory: src/distributepki/keynode.go against a specification
-- that knows no store.
use mathlib.Core.Quot
use mathlib.Core.Quot.{Quot, Quot-set}
use mathlib.Core.Option
use text.Mathlib.Text.{◌==◌ as str_eq}
use distribute_pki.Base.{
  String, ◌≡◌, refl, sym, ap, ◌∙◌, inl, inr, Bool, true, false, Option, none, some, List, [], ◌∷◌,
  arith, ◌==◌, if◌then◌else◌, Option-cases, nat_eq, string_eq, Result-cases, ok, err, and_then, get,
}
use distribute_pki.Server.Keystore.{
  Alias, Key, Snapshot, Keystore, create_key, update_key, lookup_key, KeysJson, apply_snapshot,
}
use distribute_pki.Server.KeyLookups.{lookup-write}
use distribute_pki.Server.ClientApi.{KeyOperation, op_create, op_update, ClientLibrary}
use distribute_pki.Server.KeyNode.{
  KeyNode, Server, mapped, unmapped, node_of, assigns, handle_commit_sent, as_create, as_update,
  apply_operation, apply_commit, handle_snapshot_request, handle_snapshot, Output, commit_sent,
  snapshot_asked, snapshot_sent, handle_output, handle_updates,
}
use distribute_pki.Pbft.SlotId.{SlotId}
use distribute_pki.Server.KeyRequests.{store-respond}
use distribute_pki.Server.Replicas.{SameKeys, store-apply_operation}
use distribute_pki.Server.Directory.{Directory, of_store, find, assign, of_store-exact, assign_comm}

-- The entry that an operation writes: `none` for a lookup, and where the body is not of its code.
abbrev pub entry_of : KeyOperation → Option (Alias × Key)
entry_of op =
    if op.op_code == op_create
    then elim (as_create op.op) [ none ↦ none | some c ↦ some (c.alias, c.key) ]
    else if op.op_code == op_update
    then elim (as_update op.op) [ none ↦ none | some u ↦ some (u.alias, u.key) ]
    else none

abbrev pub assign_entry : Option (Alias × Key) → Directory → Directory
assign_entry none d = d
assign_entry (some (alias, key)) d = assign alias key d

module _ (lib : ClientLibrary) where
  -- What a delivered operation writes: nothing where it is nil or cannot be decoded.
  abbrev pub committed_entry : Option String → Option (Alias × Key)
  committed_entry none = none
  committed_entry (some text) = elim (lib.gob_decode text).1 [
    | err e ↦ none
    | ok u ↦ entry_of (lib.gob_decode text).0
  ]

  of_store-update_key :
      (alias : Alias) (key : Key) (ks : Keystore)
      → of_store (update_key alias key ks) ≡ of_store (create_key alias key ks)
  of_store-update_key alias key ks =
      Quot.sound λ j. let law = lookup-write alias j key ks in law.1 ∙ sym law.0

  of_store-apply_operation :
      (op : KeyOperation) (kn : KeyNode)
      → of_store (apply_operation lib op kn).store ≡ assign_entry (entry_of op) (of_store kn.store)
  unfolding assign
  of_store-apply_operation op kn =
      let stored = store-apply_operation lib op kn in
      elim (Option-cases (as_create op.op)) [
        | inl e ↦ elim (Option-cases (as_update op.op)) [
          | inl f ↦ ground (arith, stored)
          | inr (u, f) ↦ ground (arith, stored, of_store-update_key u.alias u.key kn.store)
        ]
        | inr (c, e) ↦ elim (Option-cases (as_update op.op)) [
          | inl f ↦ ground (arith, stored)
          | inr (u, f) ↦ ground (arith, stored, of_store-update_key u.alias u.key kn.store)
        ]
      ]

  pub of_store-apply_commit :
      (operation : Option String) (kn : KeyNode)
      → of_store (apply_commit lib operation kn).store
        ≡ assign_entry (committed_entry operation) (of_store kn.store)
  unfolding apply_commit
  of_store-apply_commit none kn = refl
  of_store-apply_commit (some text) kn =
      let op : KeyOperation = (lib.gob_decode text).0 in
      elim (Result-cases (lib.gob_decode text).1) [
        | inl (e, p) ↦ ground (arith, store-respond op.digest e kn)
        | inr (u, p) ↦ ground (arith, of_store-apply_operation op kn)
      ]

  assign_entry_comm :
      (i j : Alias) (x y : Key) (p q : Option (Alias × Key)) (d : Directory)
      → p ≡ some (i, x)
      → q ≡ some (j, y)
      → str_eq i j ≡ false
      → assign_entry p (assign_entry q d) ≡ assign_entry q (assign_entry p d)
  assign_entry_comm i j x y p q d e f h = ground (arith, e, f, assign_comm i j x y d h)

  -- Two key servers that take commits for different aliases in the opposite order answer every lookup
  -- alike, if their stores did before.
  pub apply_commit_comm :
      (o p : Option String) (i j : Alias) (x y : Key) (a b : KeyNode)
      → committed_entry o ≡ some (i, x)
      → committed_entry p ≡ some (j, y)
      → str_eq i j ≡ false
      → SameKeys a.store b.store
      → SameKeys
          (apply_commit lib o (apply_commit lib p a)).store
          (apply_commit lib p (apply_commit lib o b)).store
  apply_commit_comm o p i j x y a b e f h s =
      let first = of_store-apply_commit o (apply_commit lib p a) in
      let second = of_store-apply_commit p a in
      let third = of_store-apply_commit p (apply_commit lib o b) in
      let fourth = of_store-apply_commit o b in
      let same : of_store a.store ≡ of_store b.store = Quot.sound s in
      of_store-exact _ _ (
        first
        ∙ ap (assign_entry (committed_entry o))
            (second ∙ ap (assign_entry (committed_entry p)) same)
        ∙ assign_entry_comm i j x y (committed_entry o) (committed_entry p) _ e f h
        ∙ sym (third ∙ ap (assign_entry (committed_entry p)) fourth))

-- The directory of a server, unless its map is nil.
abbrev pub view : Server → Option Directory
view (mapped kn) = some (of_store kn.store)
view (unmapped kn) = none

-- A lookup at a server: nothing is found in a nil map.
abbrev pub lookup_at : Alias → Server → Bool × Key
lookup_at alias server = lookup_key alias (node_of server).store

abbrev pub find_in : Alias → Option Directory → Bool × Key
find_in alias none = (false, "")
find_in alias (some d) = find alias d

pub lookup_at-view :
    (alias : Alias) (server : Server) → lookup_at alias server ≡ find_in alias (view server)
unfolding find lookup_key get
lookup_at-view alias (mapped kn) = refl
lookup_at-view alias (unmapped kn) = refl

module _ (lib : ClientLibrary) (json : KeysJson) where
  -- What the directory is after an output of the consensus node: only a commit and a snapshot that can
  -- be read change it. `none` inside is a nil map, which a snapshot of JSON's null leaves; outside it is
  -- the end of the process, which a commit that has an entry to write brings then.
  unfoldable pub publish : Output → Option Directory → Option (Option Directory)
  publish (commit_sent operation) none = elim (committed_entry lib operation) [
    | none ↦ some none
    | some entry ↦ none
  ]
  publish (commit_sent operation) (some d) =
      some (some (assign_entry (committed_entry lib operation) d))
  publish (snapshot_asked slot) d = some d
  publish (snapshot_sent snapshot) d = elim (json.unmarshal snapshot) [
    | err e ↦ some d
    | ok read ↦
        some (elim read [ none ↦ none | some keys ↦ some (of_store (record { keys = keys })) ])
  ]

  unfoldable pub publish_all : List Output → Option Directory → Option (Option Directory)
  publish_all [] d = some d
  publish_all (output ∷ outputs) d = and_then (publish output d) (publish_all outputs)

  assigns_lem :
      (operation : Option String)
      → assigns lib operation
        ≡ elim (committed_entry lib operation) [ none ↦ false | some entry ↦ true ]
  unfolding assigns
  assigns_lem none = refl
  assigns_lem (some text) = ground arith

  view-handle_commit_sent :
      (operation : Option String) (server : Server)
      → Option.map view (handle_commit_sent lib operation server)
        ≡ publish (commit_sent operation) (view server)
  unfolding handle_commit_sent publish
  view-handle_commit_sent operation (mapped kn) =
      ap (λ d. some (some d)) (of_store-apply_commit lib operation kn)
  view-handle_commit_sent operation (unmapped kn) = ground (arith, assigns_lem operation)

  view-handle_snapshot :
      (snapshot : Snapshot) (server : Server)
      → some (view (handle_snapshot json snapshot server))
        ≡ publish (snapshot_sent snapshot) (view server)
  unfolding handle_snapshot apply_snapshot publish
  view-handle_snapshot snapshot (mapped kn) = elim (Result-cases (json.unmarshal snapshot)) [
    | inl (e, p) ↦ ground arith
    | inr (none, p) ↦ ground arith
    | inr (some keys, p) ↦ ground arith
  ]
  view-handle_snapshot snapshot (unmapped kn) = elim (Result-cases (json.unmarshal snapshot)) [
    | inl (e, p) ↦ ground arith
    | inr (none, p) ↦ ground arith
    | inr (some keys, p) ↦ ground arith
  ]

  view-handle_snapshot_request :
      (slot : SlotId) (server : Server)
      → view (handle_snapshot_request json slot server) ≡ view server
  unfolding handle_snapshot_request
  view-handle_snapshot_request slot (mapped kn) = ground arith
  view-handle_snapshot_request slot (unmapped kn) = refl

  view-handle_output :
      (output : Output) (server : Server)
      → Option.map view (handle_output lib json output server) ≡ publish output (view server)
  unfolding handle_output publish
  view-handle_output (commit_sent operation) server = view-handle_commit_sent operation server
  view-handle_output (snapshot_asked slot) server =
      ap some (view-handle_snapshot_request slot server)
  view-handle_output (snapshot_sent snapshot) server = view-handle_snapshot snapshot server

  pub view-handle_updates :
      (outputs : List Output) (server : Server)
      → Option.map view (handle_updates lib json outputs server) ≡ publish_all outputs (view server)
  unfolding handle_updates publish_all
  view-handle_updates [] server = refl
  view-handle_updates (output ∷ outputs) server =
      let head = view-handle_output output server in
      elim (Option-cases (handle_output lib json output server)) [
        | inl e ↦ ground (arith, head)
        | inr (next, e) ↦ ground (arith, head, view-handle_updates outputs next)
      ]

  -- Whatever the consensus node sends the key server, the process ends where the specification says so
  -- and nowhere else, and otherwise every alias is found in the store as in the directory that the
  -- outputs publish, in their order: a commit that is decoded assigns the key of its Create or Update to
  -- its alias, a snapshot that is read takes the place of all keys, and nothing else changes a lookup. A
  -- snapshot of JSON's null leaves no map, in which nothing is found and where the next such commit ends
  -- the process, unless another snapshot came before. What the directory is depends on the lookups of the first store alone.
  pub lookup-handle_updates :
      (outputs : List Output) (server : Server) (alias : Alias)
      → Option.map (lookup_at alias) (handle_updates lib json outputs server)
        ≡ Option.map (find_in alias) (publish_all outputs (view server))
  lookup-handle_updates outputs server alias =
      let law = view-handle_updates outputs server in
      elim (Option-cases (handle_updates lib json outputs server)) [
        | inl e ↦ ground (arith, law)
        | inr (after, e) ↦ ground (arith, law, lookup_at-view alias after)
      ]
