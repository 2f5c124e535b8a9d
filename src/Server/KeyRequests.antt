-- ===== src/Server/KeyRequests.antt =====
-- When the key server proposes an operation, and what the operation does once it is committed.
use distribute_pki.Base.{
  ap, ◌∙◌, String, ◌≡◌, ◌↔◌, ◌⊎◌, inl, inr, true, false, some, ◌∷◌, arith, if◌then◌else◌,
  Option-cases, nat_eq, string_eq, Result-cases, ok, err,
}
use text.Mathlib.Text.{◌==◌ as str_eq}
use distribute_pki.Pbft.Messages.{Digest}
use distribute_pki.Server.Keystore.{Alias, create_key, lookup_key}
use distribute_pki.Server.KeyLookups.{lookup-write}
use distribute_pki.Server.ClientApi.{
  Create, Update, KeyOperation, op_create, op_update, ClientLibrary, GobRoundTrips,
  operation_digest, set_digest, digest_valid, create_signature_valid, update_signature_valid,
}
use distribute_pki.Server.KeyNode.{
  KeyNode, as_create, as_update, respond_pending_request, propose, propose_create, guard_create,
  request_create, propose_update, guard_update, request_update, apply_operation, apply_commit,
}

-- Whether a pending request is told or not, the store is as it was.
pub store-respond :
    (digest : Digest) (response : String) (kn : KeyNode)
    → (respond_pending_request digest response kn).store ≡ kn.store
unfolding respond_pending_request
store-respond digest response kn = ground arith

module _ (lib : ClientLibrary) where
  -- `SetDigest` makes the digest valid and changes nothing else, and a digest is valid exactly when
  -- `SetDigest` leaves the operation as it is.
  pub digest_valid-set_digest :
      (ko k : KeyOperation)
      → set_digest lib ko ≡ some k
      → (digest_valid lib k ≡ some true)
        × (k ≡ record ko { digest = k.digest })
        × ((digest_valid lib ko ≡ some true) ↔ (k ≡ ko))
  unfolding set_digest digest_valid operation_digest
  digest_valid-set_digest ko k h = (ground arith, ground arith, (ground arith, ground arith))

  -- What stands behind a proposal to create a key.
  pub record IsCreatable (keyring : lib.Ring) (args : KeyOperation) (c : Create) (kn : KeyNode)
      : Type 0 where
    pub digest : digest_valid lib args ≡ some true
    pub code : args.op_code ≡ op_create
    pub operation : as_create args.op ≡ some c
    pub signed : create_signature_valid lib keyring c ≡ true
    pub fresh : (lookup_key c.alias kn.store).0 ≡ false

  -- What stands behind a proposal to update a key: the key that the store has for the alias signed it.
  pub record IsUpdatable (args : KeyOperation) (u : Update) (kn : KeyNode) : Type 0 where
    pub digest : digest_valid lib args ≡ some true
    pub code : args.op_code ≡ op_update
    pub operation : as_update args.op ≡ some u
    pub found : (lookup_key u.alias kn.store).0 ≡ true
    pub signed : update_signature_valid lib (lookup_key u.alias kn.store).1 u ≡ true

  -- What a request leaves: either it is refused and nothing changes, or its encoding is proposed, and
  -- nothing else changes.
  abbrev pub Proposes : KeyOperation → KeyNode → KeyNode → Type 0
  Proposes args kn k =
      (text : String) × (lib.gob_encode args ≡ ok text)
      × (k ≡ record kn { proposed = text ∷ kn.proposed })

  propose-Proposes :
      (args : KeyOperation) (kn k : KeyNode) → propose lib args kn ≡ (ok tt, k) → Proposes args kn k
  unfolding propose
  propose-Proposes args kn k h = elim (Result-cases (lib.gob_encode args)) [
    | inl (e, p) ↦ ground arith
    | inr (text, p) ↦ (text, p, ground arith)
  ]

  guard_create-IsCreatable :
      (keyring : lib.Ring) (args : KeyOperation) (kn k : KeyNode)
      → digest_valid lib args ≡ some true
      → guard_create lib keyring args kn ≡ (ok tt, k)
      → (c : Create) × IsCreatable keyring args c kn × Proposes args kn k
  unfolding guard_create propose_create
  guard_create-IsCreatable keyring args kn k d h = elim (Option-cases (as_create args.op)) [
    | inl e ↦ ground arith
    | inr (c, e) ↦ (c, ground arith, propose-Proposes args kn k (ground arith))
  ]

  -- `CreateKey` succeeds only with a valid digest, the code and the body of a Create, the signature of
  -- an authority, and an alias that has no key yet; and then it proposes the operation and changes
  -- nothing else.
  pub request_create-IsCreatable :
      (keyring : lib.Ring) (args : KeyOperation) (kn k : KeyNode)
      → request_create lib keyring args kn ≡ some (ok tt, k)
      → (c : Create) × IsCreatable keyring args c kn × Proposes args kn k
  unfolding request_create
  request_create-IsCreatable keyring args kn k h =
      guard_create-IsCreatable keyring args kn k (ground arith) (ground arith)

  guard_update-IsUpdatable :
      (args : KeyOperation) (kn k : KeyNode)
      → digest_valid lib args ≡ some true
      → guard_update lib args kn ≡ (ok tt, k)
      → (u : Update) × IsUpdatable args u kn × Proposes args kn k
  unfolding guard_update propose_update
  guard_update-IsUpdatable args kn k d h = elim (Option-cases (as_update args.op)) [
    | inl e ↦ ground arith
    | inr (u, e) ↦ (u, ground arith, propose-Proposes args kn k (ground arith))
  ]

  -- `UpdateKey` succeeds only with a valid digest, the code and the body of an Update, and a signature
  -- by the key that the store has for the alias; and then it proposes the operation and changes
  -- nothing else.
  pub request_update-IsUpdatable :
      (args : KeyOperation) (kn k : KeyNode)
      → request_update lib args kn ≡ some (ok tt, k)
      → (u : Update) × IsUpdatable args u kn × Proposes args kn k
  unfolding request_update
  request_update-IsUpdatable args kn k h =
      guard_update-IsUpdatable args kn k (ground arith) (ground arith)

  -- A refused request changes nothing.
  pub request-refused :
      (keyring : lib.Ring) (args : KeyOperation) (kn k : KeyNode) (e : String)
      → (request_create lib keyring args kn ≡ some (err e, k))
        ⊎ (request_update lib args kn ≡ some (err e, k))
      → k ≡ kn
  unfolding request_create guard_create propose_create request_update guard_update propose_update
      propose
  request-refused keyring args kn k e (inl h) = ground arith
  request-refused keyring args kn k e (inr h) = ground arith

  store-apply_create :
      (args : KeyOperation) (c : Create) (kn : KeyNode)
      → args.op_code ≡ op_create
      → as_create args.op ≡ some c
      → (apply_operation lib args kn).store ≡ create_key c.alias c.key kn.store
  unfolding apply_operation
  store-apply_create args c kn p q = ground (
    arith,
    store-respond args.digest "" (record kn { store = create_key c.alias c.key kn.store }),
  )

  store-apply_commit :
      (args : KeyOperation) (c : Create) (text : String) (kn : KeyNode)
      → lib.gob_decode text ≡ (args, ok tt)
      → args.op_code ≡ op_create
      → as_create args.op ≡ some c
      → (apply_commit lib (some text) kn).store ≡ create_key c.alias c.key kn.store
  unfolding apply_commit
  store-apply_commit args c text kn d p q = ground (arith, store-apply_create args c kn p q)

  -- With an encoding that round-trips, what `CreateKey` proposed makes, at any node that commits it, a
  -- lookup of its alias find its key, and leaves the lookups of all other aliases.
  pub lookup-apply_commit :
      (keyring : lib.Ring) (args : KeyOperation) (kn k other : KeyNode) (j : Alias)
      → GobRoundTrips lib
      → request_create lib keyring args kn ≡ some (ok tt, k)
      → (c : Create) × (text : String) × (as_create args.op ≡ some c)
        × (k.proposed ≡ text ∷ kn.proposed)
        × (lookup_key j (apply_commit lib (some text) other).store
            ≡ (if str_eq c.alias j then (true, c.key) else lookup_key j other.store))
  lookup-apply_commit keyring args kn k other j trip h =
      let (c, creatable, (text, e, same)) = request_create-IsCreatable keyring args kn k h in
      (
        c,
        text,
        creatable.operation,
        ground arith,
        ap (lookup_key j) (
              store-apply_commit args c text other (trip args text e) creatable.code
                creatable.operation)
            ∙ (lookup-write c.alias j c.key other.store).0,
      )
