-- ===== src/Pbft/JsonKeys.antt =====
-- What the keys of a map become on the way through JSON.
use distribute_pki.Base.{
  ℕ, ◌-◌, ◌≤◌, ◌≡◌, sym, ap, ◌∙◌, ◌≢◌, ◌⊎◌, inl, inr, Bool, true, false, not, ◌&&◌, [], ◌∷◌, ◌++◌,
  arith, leb, if◌then◌else◌, Bool-cases, is_some, Eq, nat_eq, string_eq, Result-cases, Result, ok,
  err, ◌>>=◌, Map, get, put, get-put, get-put_self,
}
use distribute_pki.Pbft.SlotId.{SlotId, slot_id_eq}
use distribute_pki.Pbft.Messages.{NodeId, Bytes, FullPrePrepare, SignedCheckpoint}
use distribute_pki.Pbft.Json.{
  Text, text_eq, rune, scan, scan_digits, positive, negative, atoi, split, slot_key, slot_of_parts,
  node_of_key, slot_of_key, MapJson, texts_from, keys_from, marshal_pre_prepares,
  unmarshal_pre_prepares, marshal_checkpoint_proofs, unmarshal_checkpoint_proofs,
}

-- Documented behaviour of encoding/json: a map that was marshalled is read back with the same entries.
abbrev pub MapRoundTrips : {V : Type 0} → MapJson V → Type 0
MapRoundTrips {V} json =
    (m : Map Text V) (b : Bytes)
    → json.marshal m ≡ ok b
    → (m' : Map Text V) × (json.unmarshal b ≡ ok m') × ((t : Text) → get t m' ≡ get t m)

module _ {K V : Type 0} ⦃e : Eq K⦄ where
  texts_from-keeps :
      (key : K → Text) (m : Map K V) (str_map : Map Text V) (t : Text)
      → is_some (get t str_map) ≡ true
      → is_some (get t (texts_from key m str_map)) ≡ true
  unfolding texts_from
  texts_from-keeps key [] str_map t h = h
  texts_from-keeps key ((k, v) ∷ m) str_map t h =
      texts_from-keeps key m (put (key k) v str_map) t (ground (arith, get-put (key k) t v str_map))

  texts_from-has :
      (key : K → Text) (m : Map K V) (str_map : Map Text V) (k : K)
      → is_some (get k m) ≡ true
      → is_some (get (key k) (texts_from key m str_map)) ≡ true
  unfolding texts_from get
  texts_from-has key [] str_map k h = ground arith
  texts_from-has key ((j, v) ∷ m) str_map k h = elim (Bool-cases (e.beq j k)) [
    | inl hit ↦ texts_from-keeps key m (put (key j) v str_map) (key k) (
        ap (λ i. is_some (get (key i) (put (key j) v str_map))) (sym ((e.beq_iff j k).0 hit))
        ∙ ap is_some (get-put_self (key j) v str_map))
    | inr miss ↦ texts_from-has key m (put (key j) v str_map) k (ground arith)
  ]

  keys_from-keeps :
      (read : Text → Result K) (str_map : Map Text V) (before after : Map K V) (k : K)
      → keys_from read str_map before ≡ ok after
      → is_some (get k before) ≡ true
      → is_some (get k after) ≡ true
  unfolding keys_from
  keys_from-keeps read [] before after k p h = ground arith
  keys_from-keeps read ((t, v) ∷ str_map) before after k p h = elim (Result-cases (read t)) [
    | inl (x, q) ↦ ground arith
    | inr (j, q) ↦
        keys_from-keeps read str_map (put j v before) after k (ground arith)
          (ground (arith, get-put j k v before))
  ]

  -- A map of texts is read only if each of its keys is, and then it has what each is read as.
  keys_from-reads :
      (read : Text → Result K) (str_map : Map Text V) (before after : Map K V) (t : Text)
      → keys_from read str_map before ≡ ok after
      → is_some (get t str_map) ≡ true
      → (k : K) × (read t ≡ ok k) × (is_some (get k after) ≡ true)
  unfolding keys_from get
  keys_from-reads read [] before after t p h = ground arith
  keys_from-reads read ((u, v) ∷ str_map) before after t p h = elim (Result-cases (read u)) [
    | inl (x, q) ↦ ground arith
    | inr (j, q) ↦ elim (Bool-cases (text_eq.beq u t)) [
      | inl hit ↦ (
        j,
        ap read (sym ((text_eq.beq_iff u t).0 hit)) ∙ q,
        keys_from-keeps read str_map (put j v before) after j (ground arith)
            (ap is_some (get-put_self j v before)),
      )
      | inr miss ↦
          keys_from-reads read str_map (put j v before) after t (ground arith) (ground arith)
    ]
  ]

  round_trip :
      (json : MapJson V) (key : K → Text) (read : Text → Result K) (m after : Map K V) (b : Bytes)
      (k : K)
      → MapRoundTrips json
      → json.marshal (texts_from key m []) ≡ ok b
      → (json.unmarshal b >>= λ str_map. keys_from read str_map []) ≡ ok after
      → is_some (get k m) ≡ true
      → (j : K) × (read (key k) ≡ ok j) × (is_some (get j after) ≡ true)
  round_trip json key read m after b k trip e d h =
      let (str_map, reads, same) = trip (texts_from key m []) b e in
      keys_from-reads read str_map [] after (key k) (ground (arith, reads))
        (ap is_some (same (key k)) ∙ texts_from-has key m [] k h)

-- The code of a decimal digit
abbrev pub IsDigit : ℕ → Type 0
IsDigit k = (48 ≤ k) × (k ≤ 57)

abbrev is_digit : ℕ → Bool
is_digit k = leb 48 k && leb k 57

atoi-code :
    (k : ℕ) → atoi (k ∷ []) ≡ (if is_digit k then (k - 48, ok tt) else (0, err "invalid syntax"))
unfolding atoi scan_digits scan positive negative
atoi-code k = ground arith

-- A key that is one rune is a number only where the rune is a digit.
atoi-rune :
    (k : ℕ) → atoi (rune k) ≡ (if is_digit k then (k - 48, ok tt) else (0, err "invalid syntax"))
unfolding rune
atoi-rune k = ground (arith, atoi-code k, atoi-code 65533)

node_of_key-rune : (k j : ℕ) → node_of_key (rune k) ≡ ok j → IsDigit k × (j ≡ k - 48)
unfolding node_of_key
node_of_key-rune k j h = ground (arith, atoi-rune k)

slot_of_key-codes :
    (v s : ℕ) (j : SlotId)
    → slot_of_key (v ∷ 58 ∷ s ∷ []) ≡ ok j
    → IsDigit v × (s ≢ 58) × (j ≡ record { view_number = v - 48; seq_number = (atoi (s ∷ [])).0 })
unfolding slot_of_key split slot_of_parts
slot_of_key-codes v s j h = ground (arith, atoi-code v)

-- What a slot is read as, where it is read at all.
abbrev pub shifted : SlotId → SlotId
shifted id = record {
  view_number = id.view_number - 48;
  seq_number = if is_digit id.seq_number then id.seq_number - 48 else 0;
}

-- The rune that an integer becomes.
abbrev rune_code : ℕ → ℕ
rune_code k = if leb k 1114111 && not (leb 55296 k && leb k 57343) then k else 65533

rune_lem : (k : ℕ) → rune k ≡ rune_code k ∷ []
unfolding rune
rune_lem k = ground arith

rune_code_digit :
    (k : ℕ) → (is_digit (rune_code k) ≡ is_digit k) × ((rune_code k ≡ k) ⊎ (is_digit k ≡ false))
rune_code_digit k = (ground arith, ground (arith, Bool-cases (is_digit k)))

slot_of_key-slot_key :
    (id j : SlotId)
    → slot_of_key (slot_key id) ≡ ok j
    → IsDigit id.view_number × (id.seq_number ≢ 58) × (j ≡ shifted id)
unfolding slot_key
slot_of_key-slot_key id j h =
    let v : ℕ = id.view_number in
    let s : ℕ = id.seq_number in
    let key : slot_key id ≡ rune_code v ∷ 58 ∷ rune_code s ∷ [] =
      ap (λ t. t ++ 58 ∷ rune s) (rune_lem v) ∙ ap (λ t. rune_code v ∷ 58 ∷ t) (rune_lem s) in
    let (d, n, q) =
      slot_of_key-codes (rune_code v) (rune_code s) j (sym (ap slot_of_key key) ∙ h) in
    (ground arith, ground arith, q ∙ ground (arith, atoi-code (rune_code s)))

-- If the checkpoint messages of a proof are written as JSON and read back without an error, each node of
-- them has the code of a decimal digit as its id, and the map that is read has that digit in its place.
-- The JSON library round-trips at texts and checkpoint messages.
pub unmarshal_checkpoint_proofs-digits :
    (json : MapJson SignedCheckpoint) (m after : Map NodeId SignedCheckpoint) (b : Bytes)
    (id : NodeId)
    → MapRoundTrips json
    → marshal_checkpoint_proofs json m ≡ ok b
    → unmarshal_checkpoint_proofs json b ≡ ok after
    → is_some (get id m) ≡ true
    → IsDigit id × (is_some (get (id - 48) after) ≡ true)
unfolding marshal_checkpoint_proofs unmarshal_checkpoint_proofs
unmarshal_checkpoint_proofs-digits json m after b id trip e d h =
    let (j, q, found) = round_trip json rune node_of_key m after b id trip e d h in
    let (digit, same) = node_of_key-rune id j q in
    (digit, ap (λ k. is_some (get k after)) (sym same) ∙ found)

-- If the pre-prepares of a new view are written as JSON and read back without an error, each slot of
-- them has the code of a decimal digit as its view; the map that is read has a slot with that digit as
-- its view, and 0 as its sequence number where that was not the code of a digit, too. The JSON library
-- round-trips.
pub unmarshal_pre_prepares-digits :
    (json : MapJson FullPrePrepare) (m after : Map SlotId FullPrePrepare) (b : Bytes) (id : SlotId)
    → MapRoundTrips json
    → marshal_pre_prepares json m ≡ ok b
    → unmarshal_pre_prepares json b ≡ ok after
    → is_some (get id m) ≡ true
    → IsDigit id.view_number × (id.seq_number ≢ 58) × (is_some (get (shifted id) after) ≡ true)
unfolding marshal_pre_prepares unmarshal_pre_prepares
unmarshal_pre_prepares-digits json m after b id trip e d h =
    let (j, q, found) = round_trip json slot_key slot_of_key m after b id trip e d h in
    let (digit, other, same) = slot_of_key-slot_key id j q in
    (digit, other, ap (λ k. is_some (get k after)) (sym same) ∙ found)
