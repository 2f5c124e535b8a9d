-- ===== src/Server/Pending.antt =====
-- What the commits that a key server handles say to the request that waits under a digest.
use distribute_pki.Base.{
  String, ◌≡◌, refl, ap, ◌∙◌, inl, inr, Option, none, some, List, [], ◌∷◌, ◌++◌, arith, ◌==◌,
  if◌then◌else◌, ==_iff, Option-cases, nat_eq, string_eq, Result-cases, ok, err, get, get-put,
}
use distribute_pki.Pbft.Messages.{Digest}
use distribute_pki.Server.Keystore.{Keystore, create_key, update_key}
use distribute_pki.Server.ClientApi.{KeyOperation, op_create, op_update, ClientLibrary}
use distribute_pki.Server.KeyNode.{
  KeyNode, as_create, as_update, respond_pending_request, apply_operation, apply_commit,
  apply_commits,
}
use distribute_pki.Server.Http.{oldest, receive_error}

-- What the handling of an operation says to the one who waits for it.
abbrev pub outcome_of : KeyOperation → String
outcome_of ko =
    if ko.op_code == op_create
    then elim (as_create ko.op) [ none ↦ "Operation not a Create (handleCommit)" | some c ↦ "" ]
    else if ko.op_code == op_update
    then elim (as_update ko.op) [ none ↦ "Operation not a Update (handleCommit)" | some u ↦ "" ]
    else ""

-- The response of the first one, where there is one.
abbrev pub first_of : Option String → Option String → Option String
first_of none second = second
first_of (some first) second = some first

oldest-cons :
    (response : String) (responses : List String)
    → oldest (response ∷ responses) ≡ first_of (oldest responses) (some response)
unfolding oldest
oldest-cons response responses = ground arith

get-respond_pending_request :
    (d digest : Digest) (response : String) (kn : KeyNode) {responses : List String}
    → get d kn.pending ≡ some responses
    → get d (respond_pending_request digest response kn).pending
      ≡ some (if digest == d then response ∷ responses else responses)
unfolding respond_pending_request
get-respond_pending_request d digest response kn {responses} h =
    elim (Option-cases (get digest kn.pending)) [
      | inl e ↦ ground (arith, ==_iff digest d)
      | inr (old, e) ↦ ground (arith, ==_iff digest d, get-put digest d (response ∷ old) kn.pending)
    ]

module _ (lib : ClientLibrary) where
  -- What a commit says to the one who waits under a digest: nothing, if it is another operation's.
  abbrev pub answer_of : Digest → Option String → Option String
  answer_of d none = none
  answer_of d (some text) =
      let (ko, outcome) = lib.gob_decode text in
      if ko.digest == d then some (elim outcome [ err e ↦ e | ok u ↦ outcome_of ko ]) else none

  -- What is said first under a digest.
  abbrev pub first_answer : Digest → List (Option String) → Option String
  first_answer d [] = none
  first_answer d (commit ∷ commits) = first_of (answer_of d commit) (first_answer d commits)

  apply_operation-responds :
      (ko : KeyOperation) (kn : KeyNode)
      → (store : Keystore) × (apply_operation lib ko kn
          ≡ respond_pending_request ko.digest (outcome_of ko) (record kn { store = store }))
  unfolding apply_operation
  apply_operation-responds ko kn = (
    if ko.op_code == op_create
        then elim (as_create ko.op) [ none ↦ kn.store | some c ↦ create_key c.alias c.key kn.store ]
        else if ko.op_code == op_update
        then elim (as_update ko.op) [ none ↦ kn.store | some u ↦ update_key u.alias u.key kn.store ]
        else kn.store,
    ground arith,
  )

  get-apply_operation :
      (d : Digest) (ko : KeyOperation) (kn : KeyNode) {responses : List String}
      → get d kn.pending ≡ some responses
      → get d (apply_operation lib ko kn).pending
        ≡ some (if ko.digest == d then outcome_of ko ∷ responses else responses)
  unfolding apply_operation
  get-apply_operation d ko kn {responses} h =
      let (store, e) = apply_operation-responds ko kn in
      ap (λ (k : KeyNode). get d k.pending) e
      ∙ get-respond_pending_request d ko.digest (outcome_of ko) (record kn { store = store }) h

  get-apply_commit :
      (d : Digest) (commit : Option String) (kn : KeyNode) {responses : List String}
      → get d kn.pending ≡ some responses
      → get d (apply_commit lib commit kn).pending
        ≡ some (elim (answer_of d commit) [ none ↦ responses | some r ↦ r ∷ responses ])
  unfolding apply_commit
  get-apply_commit d none kn h = h
  get-apply_commit d (some text) kn {responses} h =
      let ko = (lib.gob_decode text).0 in
      elim (Result-cases (lib.gob_decode text).1) [
        | inl (e, p) ↦ ground (arith, get-respond_pending_request d ko.digest e kn h)
        | inr (u, p) ↦ ground (arith, get-apply_operation d ko kn h)
      ]

  pub receive_error-apply_commits :
      (d : Digest) (commits : List (Option String)) (kn : KeyNode) {responses : List String}
      → get d kn.pending ≡ some responses
      → receive_error (get d (apply_commits lib commits kn).pending)
        ≡ elim (first_of (oldest responses) (first_answer d commits)) [
          | none ↦ "Timeout on wait for Commit"
          | some r ↦ r
        ]
  unfolding apply_commits receive_error
  receive_error-apply_commits d [] kn h = ground arith
  receive_error-apply_commits d (commit ∷ commits) kn {responses} h =
      elim (Option-cases (answer_of d commit)) [
        | inl e ↦ ground (
          arith,
          get-apply_commit d commit kn h,
          receive_error-apply_commits d commits (apply_commit lib commit kn)
              {responses = responses},
        )
        | inr (r, e) ↦ ground (
          arith,
          get-apply_commit d commit kn h,
          oldest-cons r responses,
          receive_error-apply_commits d commits (apply_commit lib commit kn)
              {responses = r ∷ responses},
        )
      ]

  pub first_answer-append :
      (d : Digest) (before after : List (Option String)) (commit : Option String)
      → first_answer d before ≡ none
      → first_answer d (before ++ commit ∷ after)
        ≡ first_of (answer_of d commit) (first_answer d after)
  first_answer-append d [] after commit h = refl
  first_answer-append d (first ∷ before) after commit h =
      ground (arith, first_answer-append d before after commit)

  store-apply_operation :
      (ko : KeyOperation) (kn k : KeyNode)
      → kn.store ≡ k.store
      → (apply_operation lib ko kn).store ≡ (apply_operation lib ko k).store
  unfolding apply_operation respond_pending_request
  store-apply_operation ko kn k h = ground arith

  store-apply_commit :
      (commit : Option String) (kn k : KeyNode)
      → kn.store ≡ k.store
      → (apply_commit lib commit kn).store ≡ (apply_commit lib commit k).store
  unfolding apply_commit respond_pending_request
  store-apply_commit none kn k h = h
  store-apply_commit (some text) kn k h =
      ground (arith, store-apply_operation (lib.gob_decode text).0 kn k h)

  pub store-apply_commits :
      (commits : List (Option String)) (kn k : KeyNode)
      → kn.store ≡ k.store
      → (apply_commits lib commits kn).store ≡ (apply_commits lib commits k).store
  unfolding apply_commits
  store-apply_commits [] kn k h = h
  store-apply_commits (commit ∷ commits) kn k h =
      store-apply_commits commits (apply_commit lib commit kn) (apply_commit lib commit k)
        (store-apply_commit commit kn k h)
