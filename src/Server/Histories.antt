-- ===== src/Server/Histories.antt =====
-- The key server over its whole life: the requests that come over HTTP and what its consensus node
-- sends it, in any order.
use distribute_pki.Base.{
  String, ◌≡◌, refl, sym, subst, inl, inr, Bool, false, Option, none, some, List, [], ◌++◌, arith,
  Bool-cases, nat_eq, string_eq, All, ok, Holds,
}
use distribute_pki.Server.Keystore.{Keystore, KeysJson}
use distribute_pki.Pbft.SlotId.{SlotId}
use distribute_pki.Server.ClientApi.{KeyOperation, ClientLibrary}
use distribute_pki.Server.KeyNode.{
  KeyNode, Server, mapped, unmapped, node_of, with_store, assigns, handle_commit_sent,
  handle_snapshot_request, handle_snapshot, Output, commit_sent, snapshot_asked, snapshot_sent,
  handle_output,
}
use distribute_pki.Server.Acceptance.{proposed-apply_commit}
use distribute_pki.Server.Http.{BodyJson, Request, Response, handle_http}
use distribute_pki.Server.Authorised.{IsSigned, Extends, handle_http-Extends}

module _ (lib : ClientLibrary) (json : BodyJson) (keys_json : KeysJson) (keyring : lib.Ring) where
  -- One request, with what is committed during it, or one output of the consensus node. With a nil map
  -- the process goes on only where no commit assigns a key.
  pub data Step : Server → Server → Type 0 where
    http_step :
        (n k : KeyNode) (down : Bool) (r : Request) (between arrivals : List (Option String))
        (response : Response)
        → handle_http lib json keyring down r between arrivals n ≡ some (response, k)
        → Step (mapped n) (mapped k)
    unmapped_step :
        (n k : KeyNode) (down : Bool) (r : Request) (between arrivals : List (Option String))
        (response : Response)
        → All (λ o. assigns lib o ≡ false) (between ++ arrivals)
        → handle_http lib json keyring down r between arrivals (node_of (unmapped n))
          ≡ some (response, k)
        → Step (unmapped n) (unmapped k)
    output_step :
        (n k : Server) (output : Output) → handle_output lib keys_json output n ≡ some k → Step n k

  -- The states that a key server comes to.
  pub data Reaches (start : Server) : Server → Type 0 where
    reached_start : Reaches start start
    reached_by : (n k : Server) → Reaches start n → Step n k → Reaches start k

  proposed-handle_commit_sent :
      (operation : Option String) (n k : Server)
      → handle_commit_sent lib operation n ≡ some k
      → (node_of k).proposed ≡ (node_of n).proposed
  unfolding handle_commit_sent
  proposed-handle_commit_sent operation (mapped n) k h =
      subst (Holds (λ (m : Server). (node_of m).proposed ≡ n.proposed)) h
        (proposed-apply_commit lib operation n)
  proposed-handle_commit_sent operation (unmapped n) k h =
      elim (Bool-cases (assigns lib operation)) [
        | inl a ↦ ground arith
        | inr a ↦
            subst (Holds (λ (m : Server). (node_of m).proposed ≡ n.proposed)) h
              (rw a (proposed-apply_commit lib operation n))
      ]

  proposed-with_store :
      (kn : KeyNode) (store : Option Keystore)
      → (node_of (with_store kn store)).proposed ≡ kn.proposed
  proposed-with_store kn none = refl
  proposed-with_store kn (some store) = refl

  proposed-handle_snapshot_request :
      (slot : SlotId) (n : Server)
      → (node_of (handle_snapshot_request keys_json slot n)).proposed ≡ (node_of n).proposed
  unfolding handle_snapshot_request
  proposed-handle_snapshot_request slot (mapped n) = ground arith
  proposed-handle_snapshot_request slot (unmapped n) = ground arith

  proposed-handle_output :
      (output : Output) (n k : Server)
      → handle_output lib keys_json output n ≡ some k
      → (node_of k).proposed ≡ (node_of n).proposed
  unfolding handle_output handle_snapshot
  proposed-handle_output (commit_sent operation) n k h = proposed-handle_commit_sent operation n k h
  proposed-handle_output (snapshot_asked slot) n k h =
      subst (Holds (λ (m : Server). (node_of m).proposed ≡ (node_of n).proposed)) h
        (proposed-handle_snapshot_request slot n)
  proposed-handle_output (snapshot_sent snapshot) n k h =
      subst (Holds (λ (m : Server). (node_of m).proposed ≡ (node_of n).proposed)) h
        (proposed-with_store (node_of n) _)

  Step-Extends : (n k : Server) → Step n k → Extends lib keyring (node_of n) (node_of k)
  Step-Extends _ _ (http_step n k down r between arrivals response h) =
      handle_http-Extends lib json keyring down r between arrivals n k response h
  Step-Extends _ _ (unmapped_step n k down r between arrivals response quiet h) =
      handle_http-Extends lib json keyring down r between arrivals (node_of (unmapped n)) k response
        h
  Step-Extends n k (output_step _ _ output h) = inl (proposed-handle_output output n k h)

  -- A proposal that was signed in a state that the key server came to.
  abbrev pub WasSigned : Server → String → Type 0
  WasSigned start text =
      (op : KeyOperation) × (n : Server) × Reaches start n
      × (lib.gob_encode op ≡ ok text)
      × IsSigned lib keyring op (node_of n)

  -- Whatever requests come to a key server that has proposed nothing, and whatever its consensus node
  -- sends it, in any order: behind all that it proposes stands an operation whose digest is valid and
  -- that, in a state that the server came to, an authority signed for an alias without a key, or the
  -- key that the store then had for the alias signed.
  pub proposed-WasSigned :
      (start k : Server)
      → Reaches start k
      → (node_of start).proposed ≡ []
      → All (WasSigned start) (node_of k).proposed
  proposed-WasSigned start k reached_start e = subst (All (WasSigned start)) (sym e) tt
  proposed-WasSigned start k (reached_by n _ r step) e =
      let before = proposed-WasSigned start n r e in
      elim (Step-Extends n k step) [
        | inl same ↦ subst (All (WasSigned start)) (sym same) before
        | inr (op, text, encoded, signed, same) ↦
            subst (All (WasSigned start)) (sym same) ((op, n, r, encoded, signed), before)
      ]
