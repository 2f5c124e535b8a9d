-- ===== src/Server/Examples.antt =====
-- The theorems on the key store at concrete stores, with an encoding that knows one map.
use text.Mathlib.Text.{◌==◌ as str_eq}
use text.Mathlib.TextEquality.{eq_iff}
use distribute_pki.Base.{
  zero, suc, ◌≡◌, refl, ◌&&◌, Option, none, some, [], ◌∷◌, arith, if◌then◌else◌, nat_eq, string_eq,
  Result, ok, err, Map,
}
use distribute_pki.Server.Keystore.{Alias, Key, Snapshot, Keystore, KeysJson, RoundTrips}

abbrev pub alice : Keystore
alice = record { keys = ("alice", "key") ∷ [] }

abbrev pub empty : Keystore
empty = record { keys = [] }

abbrev marshal_one : Option (Map Alias Key) → Result Snapshot
marshal_one none = ok (0 ∷ [])
marshal_one (some []) = ok []
marshal_one (some (e ∷ [])) =
    if str_eq e.0 "alice" && str_eq e.1 "key" then ok (1 ∷ []) else err "unknown"
marshal_one (some (e ∷ f ∷ keys)) = err "unknown"

abbrev unmarshal_one : Snapshot → Result (Option (Map Alias Key))
unmarshal_one [] = ok (some [])
unmarshal_one (zero ∷ b) = ok none
unmarshal_one (suc n ∷ b) = ok (some (("alice", "key") ∷ []))

abbrev pub one_map : KeysJson
one_map = record { marshal = marshal_one; unmarshal = unmarshal_one }

known :
    (a : Alias) (k : Key) (b : Snapshot)
    → marshal_one (some ((a, k) ∷ [])) ≡ ok b
    → (a ≡ "alice") × (k ≡ "key")
known a k b h =
    let e = eq_iff a "alice" in let f = eq_iff k "key" in (ground (arith, e), ground (arith, f))

pub one_map-RoundTrips : RoundTrips one_map
one_map-RoundTrips [] b h = ([], ground arith, λ alias. refl)
one_map-RoundTrips ((a, k) ∷ []) b h =
    let (x, y) = known a k b h in (("alice", "key") ∷ [], ground arith, λ alias. rw (x, y))
one_map-RoundTrips (e ∷ f ∷ keys) b h = ground arith
