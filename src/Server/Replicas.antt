-- ===== src/Server/Replicas.antt =====
-- Replicas of the key store: the same commits keep two stores the same.
use distribute_pki.Base.{
  String, ◌≡◌, inl, inr, Option, none, some, List, [], ◌∷◌, arith, ◌==◌, if◌then◌else◌,
  Option-cases, nat_eq, string_eq, Result-cases,
}
use distribute_pki.Server.Keystore.{Alias, Key, Keystore, create_key, update_key, lookup_key}
use distribute_pki.Server.KeyLookups.{lookup-write}
use distribute_pki.Server.ClientApi.{KeyOperation, op_create, op_update, ClientLibrary}
use distribute_pki.Server.KeyNode.{
  KeyNode, as_create, as_update, respond_pending_request, apply_operation, apply_commit, Server,
  apply_commits,
}
use distribute_pki.Server.KeyRequests.{store-respond}

-- Two stores answer every lookup alike, in whatever order their maps stand.
abbrev pub SameKeys : Keystore → Keystore → Type 0
SameKeys a b = (alias : Alias) → lookup_key alias a ≡ lookup_key alias b

pub create_key-SameKeys :
    (alias : Alias) (key : Key) (a b : Keystore)
    → SameKeys a b
    → SameKeys (create_key alias key a) (create_key alias key b)
create_key-SameKeys alias key a b s j =
    ground (arith, (lookup-write alias j key a).0, (lookup-write alias j key b).0, s j)

update_key-SameKeys :
    (alias : Alias) (key : Key) (a b : Keystore)
    → SameKeys a b
    → SameKeys (update_key alias key a) (update_key alias key b)
update_key-SameKeys alias key a b s j =
    ground (arith, (lookup-write alias j key a).1, (lookup-write alias j key b).1, s j)

module _ (lib : ClientLibrary) where
  -- The store after an operation.
  abbrev pub write : KeyOperation → Keystore → Keystore
  write op ks =
      if op.op_code == op_create
      then elim (as_create op.op) [ none ↦ ks | some c ↦ create_key c.alias c.key ks ]
      else if op.op_code == op_update
      then elim (as_update op.op) [ none ↦ ks | some u ↦ update_key u.alias u.key ks ]
      else ks

  pub store-apply_operation :
      (op : KeyOperation) (kn : KeyNode) → (apply_operation lib op kn).store ≡ write op kn.store
  unfolding apply_operation respond_pending_request
  store-apply_operation op kn = ground arith

  write-SameKeys :
      (op : KeyOperation) (a b : Keystore) → SameKeys a b → SameKeys (write op a) (write op b)
  write-SameKeys op a b s j = elim (Option-cases (as_create op.op)) [
    | inl e ↦ elim (Option-cases (as_update op.op)) [
      | inl f ↦ ground (arith, s j)
      | inr (u, f) ↦ ground (arith, s j, update_key-SameKeys u.alias u.key a b s j)
    ]
    | inr (c, e) ↦ elim (Option-cases (as_update op.op)) [
      | inl f ↦ ground (arith, s j, create_key-SameKeys c.alias c.key a b s j)
      | inr (u, f) ↦ ground (
        arith,
        s j,
        create_key-SameKeys c.alias c.key a b s j,
        update_key-SameKeys u.alias u.key a b s j,
      )
    ]
  ]

  apply_commit-SameKeys :
      (operation : Option String) (a b : KeyNode)
      → SameKeys a.store b.store
      → SameKeys (apply_commit lib operation a).store (apply_commit lib operation b).store
  unfolding apply_commit
  apply_commit-SameKeys none a b s j = s j
  apply_commit-SameKeys (some text) a b s j =
      let op : KeyOperation = (lib.gob_decode text).0 in
      elim (Result-cases (lib.gob_decode text).1) [
        | inl (e, p) ↦ ground (arith, store-respond op.digest e a, store-respond op.digest e b, s j)
        | inr (u, p) ↦ ground (
          arith,
          store-apply_operation op a,
          store-apply_operation op b,
          write-SameKeys op a.store b.store s j,
        )
      ]

  -- Two nodes whose stores answer every lookup alike do so after the same commits, whatever requests
  -- they have pending.
  pub apply_commits-SameKeys :
      (operations : List (Option String)) (a b : KeyNode)
      → SameKeys a.store b.store
      → SameKeys (apply_commits lib operations a).store (apply_commits lib operations b).store
  unfolding apply_commits
  apply_commits-SameKeys [] a b s = s
  apply_commits-SameKeys (operation ∷ operations) a b s =
      apply_commits-SameKeys operations (apply_commit lib operation a)
        (apply_commit lib operation b) (apply_commit-SameKeys operation a b s)
