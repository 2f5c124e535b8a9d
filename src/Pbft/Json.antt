-- ===== src/Pbft/Json.antt =====
-- src/pbft/messages.go: the JSON forms of the maps in view changes and new views, whose keys are ids of
-- nodes or slots. A text is the list of its code points. strconv.Atoi and strings.Split are written
-- out; an int is its value modulo 2 ^ 64, so a negative one stands in the upper half.
use distribute_pki.Base.{
  ℕ, ◌+◌, ◌-◌, ◌*◌, ◌%◌, ◌^◌, ◌≡◌, ◌↔◌, Bool, true, false, not, ◌&&◌, List, [], ◌∷◌, ◌++◌, arith,
  ltb, leb, ◌==◌, if◌then◌else◌, Eq, nat_eq, string_eq, Result, ok, err, ◌>>=◌, Map, put,
}
use distribute_pki.Pbft.SlotId.{SlotId, slot_id_eq}
use distribute_pki.Pbft.Messages.{
  NodeId, Bytes, SignedCheckpoint, PreparedProof, FullPrePrepare, SignedViewChange,
}

abbrev pub Text : Type 0
Text = List ℕ

-- Text as a key of a map.
unfoldable pub same_text : Text → Text → Bool
same_text [] [] = true
same_text [] (d ∷ u) = false
same_text (c ∷ t) [] = false
same_text (c ∷ t) (d ∷ u) = c == d && same_text t u

pub same_text_iff : (t u : Text) → (same_text t u ≡ true) ↔ (t ≡ u)
unfolding same_text
same_text_iff [] [] = ground arith
same_text_iff [] (d ∷ u) = ground arith
same_text_iff (c ∷ t) [] = ground arith
same_text_iff (c ∷ t) (d ∷ u) = ground (arith, same_text_iff t u)

instance abbrev pub text_eq : Eq Text
text_eq = record { beq = same_text; beq_iff = same_text_iff }

-- string(k) of an integer k: the text of that one code point, or of U+FFFD where k is none.
unfoldable pub rune : ℕ → Text
rune k = if leb k 1114111 && not (leb 55296 k && leb k 57343) then k ∷ [] else 65533 ∷ []

-- The digits of a number below 2 ^ 64, in the order in which strconv.ParseUint meets an error.
pub data Scan : Type 0 where
  number : ℕ → Scan
  syntax_error : Scan
  range_error : Scan

unfoldable pub scan : ℕ → Text → Scan
scan n [] = number n
scan n (c ∷ t) =
    let rest = scan (n * 10 + (c - 48)) t in
    if not (leb 48 c && leb c 57)
    then syntax_error
    else if leb (2 ^ 64) (n * 10 + (c - 48))
    then range_error
    else rest

unfoldable pub scan_digits : Text → Scan
scan_digits [] = syntax_error
scan_digits (c ∷ t) = scan 0 (c ∷ t)

unfoldable pub positive : Scan → ℕ × Result (Unit {0})
positive (number n) = if ltb n (2 ^ 63) then (n, ok tt) else (2 ^ 63 - 1, err "value out of range")
positive syntax_error = (0, err "invalid syntax")
positive range_error = (2 ^ 63 - 1, err "value out of range")

unfoldable pub negative : Scan → ℕ × Result (Unit {0})
negative (number n) =
    if leb n (2 ^ 63) then ((2 ^ 64 - n) % 2 ^ 64, ok tt) else (2 ^ 63, err "value out of range")
negative syntax_error = (0, err "invalid syntax")
negative range_error = (2 ^ 63, err "value out of range")

-- strconv.Atoi: the value, which an error does not leave out, and the error.
unfoldable pub atoi : Text → ℕ × Result (Unit {0})
atoi [] = positive syntax_error
atoi (c ∷ t) =
    if c == 45
    then negative (scan_digits t)
    else if c == 43
    then positive (scan_digits t)
    else positive (scan_digits (c ∷ t))

-- strings.Split(t, ":")
unfoldable pub split : Text → List Text
split [] = [] ∷ []
split (c ∷ t) =
    if c == 58
    then [] ∷ split t
    else elim (split t) [ [] ↦ (c ∷ []) ∷ [] | part ∷ parts ↦ (c ∷ part) ∷ parts ]

unfoldable pub slot_key : SlotId → Text
slot_key k = rune k.view_number ++ 58 ∷ rune k.seq_number

unfoldable pub slot_of_parts : List Text → Result SlotId
slot_of_parts (s ∷ r ∷ []) =
    let view = atoi s in
    elim view.1 [
      | err e ↦ err e
      | ok u ↦ ok (record { view_number = view.0; seq_number = (atoi r).0 })
    ]
slot_of_parts [] = err "Unmarshalling JSON: invalid key"
slot_of_parts (s ∷ []) = err "Unmarshalling JSON: invalid key"
slot_of_parts (s ∷ r ∷ q ∷ parts) = err "Unmarshalling JSON: invalid key"

unfoldable pub node_of_key : Text → Result NodeId
node_of_key k = let id = atoi k in elim id.1 [ err e ↦ err e | ok u ↦ ok id.0 ]

unfoldable pub slot_of_key : Text → Result SlotId
slot_of_key k = slot_of_parts (split k)

-- encoding/json: json.Marshal and json.Unmarshal at map[string]V
pub record MapJson (V : Type 0) : Type 0 where
  pub marshal : Map Text V → Result Bytes
  pub unmarshal : Bytes → Result (Map Text V)

-- The loops over a map, from and to keys that are texts.
module _ {K V : Type 0} ⦃e : Eq K⦄ where
  unfoldable pub texts_from : (K → Text) → Map K V → Map Text V → Map Text V
  texts_from key [] str_map = str_map
  texts_from key ((k, v) ∷ m) str_map = texts_from key m (put (key k) v str_map)

  unfoldable pub keys_from : (Text → Result K) → Map Text V → Map K V → Result (Map K V)
  keys_from read [] result_map = ok result_map
  keys_from read ((k, v) ∷ str_map) result_map =
      read k >>= λ key. keys_from read str_map (put key v result_map)

-- The two methods of CheckpointProofMap
unfoldable pub marshal_checkpoint_proofs :
    MapJson SignedCheckpoint → Map NodeId SignedCheckpoint → Result Bytes
marshal_checkpoint_proofs json m = json.marshal (texts_from rune m [])

unfoldable pub unmarshal_checkpoint_proofs :
    MapJson SignedCheckpoint → Bytes → Result (Map NodeId SignedCheckpoint)
unmarshal_checkpoint_proofs json b = do str_map ← json.unmarshal b; keys_from node_of_key str_map []

-- of PreparedProofMap
unfoldable pub marshal_prepared_proofs :
    MapJson PreparedProof → Map SlotId PreparedProof → Result Bytes
marshal_prepared_proofs json m = json.marshal (texts_from slot_key m [])

unfoldable pub unmarshal_prepared_proofs :
    MapJson PreparedProof → Bytes → Result (Map SlotId PreparedProof)
unmarshal_prepared_proofs json b = do str_map ← json.unmarshal b; keys_from slot_of_key str_map []

-- of NewViewPrePrepareMap
unfoldable pub marshal_pre_prepares :
    MapJson FullPrePrepare → Map SlotId FullPrePrepare → Result Bytes
marshal_pre_prepares json m = json.marshal (texts_from slot_key m [])

unfoldable pub unmarshal_pre_prepares :
    MapJson FullPrePrepare → Bytes → Result (Map SlotId FullPrePrepare)
unmarshal_pre_prepares json b = do str_map ← json.unmarshal b; keys_from slot_of_key str_map []

-- of NewViewViewChangeMap
unfoldable pub marshal_view_changes :
    MapJson SignedViewChange → Map NodeId SignedViewChange → Result Bytes
marshal_view_changes json m = json.marshal (texts_from rune m [])

unfoldable pub unmarshal_view_changes :
    MapJson SignedViewChange → Bytes → Result (Map NodeId SignedViewChange)
unmarshal_view_changes json b = do str_map ← json.unmarshal b; keys_from node_of_key str_map []
