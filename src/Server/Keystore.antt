-- ===== src/Server/Keystore.antt =====
-- src/distributepki/keystore/keystore.go: the map from aliases to keys. Each method is
-- one step: the locks make it so, but GetSnapshot takes none. encoding/json's conversion of the map is a parameter. A `Keystore`
-- is one whose map is not nil, and `none` in its place is one whose map is nil, which a read takes as an
-- empty one and where an assignment ends the process.
use distribute_pki.Base.{
  ℕ, String, ◌≡◌, Bool, true, false, Option, none, some, List, [], ◌∷◌, nat_eq, string_eq, Result,
  ok, err, Map, get, put,
}

abbrev pub Alias : Type 0
Alias = String

abbrev pub Key : Type 0
Key = String

abbrev pub Snapshot : Type 0
Snapshot = List ℕ

pub record Keystore : Type 0 where
  pub keys : Map Alias Key

-- The loop over the initial map.
unfoldable pub copy_keys : Map String String → Map Alias Key → Map Alias Key
copy_keys [] keys = keys
copy_keys ((k, v) ∷ initial) keys = copy_keys initial (put k v keys)

unfoldable pub new_keystore : Map String String → Keystore
new_keystore initial = record { keys = copy_keys initial [] }

unfoldable pub create_key : Alias → Key → Keystore → Keystore
create_key alias key ks = record ks { keys = put alias key ks.keys }

unfoldable pub update_key : Alias → Key → Keystore → Keystore
update_key alias key ks = record ks { keys = put alias key ks.keys }

unfoldable pub lookup_key : Alias → Keystore → Bool × Key
lookup_key alias ks = elim (get alias ks.keys) [ none ↦ (false, "") | some key ↦ (true, key) ]

-- json.Marshal and json.Unmarshal at map[Alias]Key, where `none` is the nil map: JSON's null
pub record KeysJson : Type 0 where
  pub marshal : Option (Map Alias Key) → Result Snapshot
  pub unmarshal : Snapshot → Result (Option (Map Alias Key))

unfoldable pub get_snapshot : KeysJson → Option Keystore → Result Snapshot
get_snapshot json none = json.marshal none
get_snapshot json (some ks) = json.marshal (some ks.keys)

unfoldable pub apply_snapshot :
    KeysJson → Snapshot → Option Keystore → Result (Unit {0}) × Option Keystore
apply_snapshot json snapshot store = elim (json.unmarshal snapshot) [
  | err e ↦ (err e, store)
  | ok read ↦ (ok tt, elim read [ none ↦ none | some keys ↦ some (record { keys = keys }) ])
]

-- Documented behaviour of encoding/json: a map that is not nil and was marshalled is read back with the same entries.
abbrev pub RoundTrips : KeysJson → Type 0
RoundTrips json =
    (keys : Map Alias Key) (b : Snapshot)
    → json.marshal (some keys) ≡ ok b
    → (keys' : Map Alias Key) × (json.unmarshal b ≡ ok (some keys'))
      × ((alias : Alias) → get alias keys' ≡ get alias keys)
