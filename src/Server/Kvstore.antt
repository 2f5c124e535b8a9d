-- ===== src/Server/Kvstore.antt =====
-- src/distributepki/keystore/kvstore.go: an older store, which nothing calls. What it did with the
-- consensus node is commented out, so that it is a map that only a snapshot changes.
use distribute_pki.Base.{
  String, Bool, true, false, Option, none, some, [], nat_eq, string_eq, Result, ok, err, Map, get,
}
use distribute_pki.Server.Keystore.{Snapshot, KeysJson}

pub record Kvstore : Type 0 where
  pub kv_store : Option (Map String String)

-- `NewKVStore`; a nil map becomes an empty one.
unfoldable pub new_kv_store : Option (Map String String) → Kvstore
new_kv_store none = record { kv_store = some [] }
new_kv_store (some initial_store) = record { kv_store = some initial_store }

-- `Get`
unfoldable pub get_value : String → Kvstore → String × Bool
get_value key s = elim s.kv_store [
  | none ↦ ("", false)
  | some store ↦ elim (get key store) [ none ↦ ("", false) | some v ↦ (v, true) ]
]

-- `Put`, whose body is commented out
unfoldable pub put_value : String → String → Kvstore → Kvstore
put_value k v s = s

-- `GetSnapshot`
unfoldable pub kv_snapshot : KeysJson → Kvstore → Result Snapshot
kv_snapshot json s = json.marshal s.kv_store

-- `ApplySnapshot`
unfoldable pub apply_kv_snapshot : KeysJson → Snapshot → Kvstore → Result (Unit {0}) × Kvstore
apply_kv_snapshot json snapshot s = elim (json.unmarshal snapshot) [
  | err e ↦ (err e, s)
  | ok store ↦ (ok tt, record { kv_store = store })
]
