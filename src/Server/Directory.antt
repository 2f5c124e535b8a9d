-- ===== src/Server/Directory.antt =====
-- The key store as its clients see it: stores up to what a lookup finds.
pub mod Outputs
use mathlib.Core.Quot
use mathlib.Core.Quot.{Quot, Quot-set}
use text.Mathlib.Text.{◌==◌ as str_eq}
use text.Mathlib.TextEquality.{eq_iff, IsScalar-prop}
use mathlib.Core.HLevel.{prop→set}
use Prim.Native.Char.{IsScalar}
use distribute_pki.Base.{
  ℕ, String, ◌≡◌, ap, Bool, true, false, not, arith, if◌then◌else◌, nat_eq, string_eq,
}
use distribute_pki.Server.Keystore.{
  Alias, Key, Keystore, create_key, update_key, lookup_key, KeysJson, apply_snapshot,
}
use distribute_pki.Server.KeyLookups.{lookup-write}
use distribute_pki.Server.ClientApi.{KeyOperation, op_create, op_update, ClientLibrary}
use distribute_pki.Server.KeyNode.{
  KeyNode, as_create, as_update, respond_pending_request, apply_operation, apply_commit,
  handle_snapshot_request, handle_snapshot, Output, commit_sent, snapshot_asked, snapshot_sent,
  handle_output, handle_updates,
}
use distribute_pki.Server.KeyRequests.{store-respond}
use distribute_pki.Server.Replicas.{SameKeys, create_key-SameKeys, write, store-apply_operation}

-- A text is a set of scalar values, each with a proof that it is one.
pub String-set : IsSet String
String-set =
    let scalar : (n : ℕ) → IsSet (IsScalar n) = λ n. prop→set (IsScalar-prop n) in hlevel (scalar)

abbrev pub Directory : Type 0
Directory = Quot SameKeys

abbrev pub of_store : Keystore → Directory
of_store = Quot.mk

unfoldable pub find : Alias → Directory → Bool × Key
find alias = Quot.lift (hlevel String-set) (lookup_key alias) λ a b h. h alias

-- An alias gets a key, whether it had one or not.
unfoldable pub assign : Alias → Key → Directory → Directory
assign alias key =
    Quot.lift Quot-set (λ ks. of_store (create_key alias key ks))
      λ a b h. Quot.sound (create_key-SameKeys alias key a b h)

-- Two directories in which every alias is found alike are the same.
pub directory_ext : (a b : Directory) → ((alias : Alias) → find alias a ≡ find alias b) → a ≡ b
unfolding find
directory_ext = Quot.ind (λ _. hlevel Quot-set) λ a. Quot.ind (λ _. hlevel Quot-set) λ b. Quot.sound

pub of_store-exact : (a b : Keystore) → of_store a ≡ of_store b → SameKeys a b
unfolding find
of_store-exact a b e alias = ap (find alias) e

pub find-assign :
    (alias j : Alias) (key : Key) (d : Directory)
    → find j (assign alias key d) ≡ (if str_eq alias j then (true, key) else find j d)
unfolding find assign
find-assign alias j key = Quot.ind (λ _. hlevel String-set) λ ks. (lookup-write alias j key ks).0

-- Keys of different aliases can be assigned in either order.
pub assign_comm :
    (i j : Alias) (x y : Key) (d : Directory)
    → str_eq i j ≡ false
    → assign i x (assign j y d) ≡ assign j y (assign i x d)
assign_comm i j x y d h = directory_ext _ _ λ k.
    let a = find-assign i k x (assign j y d) in
    let b = find-assign j k y d in
    let c = find-assign j k y (assign i x d) in
    let e = find-assign i k x d in ground (arith, a, b, c, e, eq_iff i k, eq_iff j k, eq_iff i j)
