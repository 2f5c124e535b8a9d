-- ===== src/Server/KeyLookups.antt =====
-- What a lookup in the key store finds.
use text.Mathlib.Text.{◌==◌ as str_eq}
use distribute_pki.Base.{
  ◌≡◌, true, Option, some, arith, if◌then◌else◌, nat_eq, string_eq, ok, get-put,
}
use distribute_pki.Server.Keystore.{
  Alias, Key, Snapshot, Keystore, create_key, update_key, lookup_key, KeysJson, get_snapshot,
  apply_snapshot, RoundTrips,
}

-- After a key is created or updated, a lookup of its alias finds it, and a lookup of another alias
-- finds what it found before.
pub lookup-write :
    (alias j : Alias) (key : Key) (ks : Keystore)
    → (lookup_key j (create_key alias key ks)
        ≡ (if str_eq alias j then (true, key) else lookup_key j ks))
      × (lookup_key j (update_key alias key ks)
          ≡ (if str_eq alias j then (true, key) else lookup_key j ks))
unfolding create_key update_key lookup_key
lookup-write alias j key ks =
    let law = get-put alias j key ks.keys in (ground (arith, law), ground (arith, law))

-- A snapshot of a store whose map is not nil, that another store applies, is read, and then a lookup
-- there finds what the first store finds.
pub lookup-apply_snapshot :
    (json : KeysJson) (ks : Keystore) (other : Option Keystore) (b : Snapshot)
    → RoundTrips json
    → get_snapshot json (some ks) ≡ ok b
    → (taken : Keystore) × (apply_snapshot json b other ≡ (ok tt, some taken))
      × ((alias : Alias) → lookup_key alias taken ≡ lookup_key alias ks)
unfolding get_snapshot apply_snapshot lookup_key
lookup-apply_snapshot json ks other b law h =
    let (keys, read, same) = law ks.keys b h in
    (record { keys = keys }, ground (arith, read), λ alias. ground (arith, same alias))
