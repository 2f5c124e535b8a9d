-- ===== src/Pbft/JsonExamples.antt =====
-- The theorems on JSON keys at maps of one entry, with a JSON library that knows one map.
use text.Mathlib.Text.{◌==◌ as str_eq}
use text.Mathlib.TextEquality.{eq_iff}
use distribute_pki.Base.{
  ◌≢◌, ℕ, ◌-◌, ◌≡◌, refl, sym, ap, ◌∙◌, Bool, true, false, ◌&&◌, List, [], ◌∷◌, arith, ◌==◌,
  if◌then◌else◌, is_some, nat_eq, string_eq, Result, ok, err, Map, get, put,
}
use distribute_pki.Pbft.SlotId.{SlotId, slot_id_eq}
use distribute_pki.Pbft.Messages.{NodeId, Bytes, FullPrePrepare, SignedCheckpoint}
use distribute_pki.Pbft.Json.{
  Text, same_text, text_eq, rune, scan, scan_digits, positive, negative, atoi, split, slot_key,
  slot_of_parts, node_of_key, slot_of_key, MapJson, texts_from, keys_from, marshal_pre_prepares,
  unmarshal_pre_prepares, marshal_checkpoint_proofs, unmarshal_checkpoint_proofs,
}
use distribute_pki.Pbft.JsonKeys.{
  MapRoundTrips, IsDigit, shifted, unmarshal_checkpoint_proofs-digits,
  unmarshal_pre_prepares-digits,
}

-- At a text key and a value that a test tells.
abbrev one_entry : {V : Type 0} → Text → (V → Bool) → Map Text V → Result Bytes
one_entry key test [] = err "unknown"
one_entry key test ((t, v) ∷ []) = if text_eq.beq t key && test v then ok [] else err "unknown"
one_entry key test ((t, v) ∷ (u, w) ∷ m) = err "unknown"

abbrev knows_one : {V : Type 0} → Text → (V → Bool) → V → MapJson V
knows_one key test v = record { marshal = one_entry key test; unmarshal = λ b. ok ((key, v) ∷ []) }

cong_entry :
    {V : Type 0} {t u : Text} {v w : V}
    → t ≡ u
    → v ≡ w
    → Path (Map Text V) ((t, v) ∷ []) ((u, w) ∷ [])
cong_entry {u = u} {v = v} p q = ap (λ t. (t, v) ∷ []) p ∙ ap (λ v. (u, v) ∷ []) q

knows_one-MapRoundTrips :
    {V : Type 0} (key : Text) (test : V → Bool) (v : V)
    → ((w : V) → test w ≡ true → w ≡ v)
    → MapRoundTrips (knows_one key test v)
knows_one-MapRoundTrips key test v exact [] b h = ground arith
knows_one-MapRoundTrips key test v exact ((t, w) ∷ []) b h =
    let is_key : text_eq.beq t key && test w ≡ true = ground arith in
    (
      (key, v) ∷ [],
      refl,
      λ u.
          ap (λ m. get u m)
            (cong_entry (ground (arith, text_eq.beq_iff t key)) (sym (exact w (ground arith)))),
    )
knows_one-MapRoundTrips key test v exact ((t, w) ∷ (u, x) ∷ m) b h = ground arith

abbrev vote : SignedCheckpoint
vote = record {
  message = record {
    number = record { view_number = 0; seq_number = 100 };
    snapshot = [];
    node = 52;
  };
  signature = [];
}

abbrev is_empty {ℓ} : {A : Type ℓ} → List A → Bool
is_empty [] = true
is_empty (a ∷ l) = false

is_empty-eq {ℓ} : {A : Type ℓ} (l : List A) → is_empty l ≡ true → l ≡ []
is_empty-eq [] h = refl
is_empty-eq (a ∷ l) h = ground arith

abbrev is_vote : SignedCheckpoint → Bool
is_vote s =
    is_empty s.signature
    && (is_empty s.message.snapshot
        && ((s.message.node == 52)
            && ((s.message.number.view_number == 0) && (s.message.number.seq_number == 100))))

is_vote-eq : (s : SignedCheckpoint) → is_vote s ≡ true → s ≡ vote
is_vote-eq s h = ground (arith, is_empty-eq s.signature, is_empty-eq s.message.snapshot)

votes_lem :
    (marshal_checkpoint_proofs (knows_one (52 ∷ []) is_vote vote) ((52, vote) ∷ []) ≡ ok [])
    × (unmarshal_checkpoint_proofs (knows_one (52 ∷ []) is_vote vote) [] ≡ ok ((4, vote) ∷ []))
    × (is_some (get {K = NodeId} 52 ((52, vote) ∷ [])) ≡ true)
unfolding marshal_checkpoint_proofs unmarshal_checkpoint_proofs rune scan scan_digits positive
    negative atoi node_of_key texts_from keys_from get put same_text
votes_lem = (refl, refl, refl)

unmarshal_checkpoint_proofs-digits_example :
    IsDigit 52 × (is_some (get {K = NodeId} (52 - 48) ((4, vote) ∷ [])) ≡ true)
unmarshal_checkpoint_proofs-digits_example =
    unmarshal_checkpoint_proofs-digits (knows_one (52 ∷ []) is_vote vote) ((52, vote) ∷ [])
      ((4, vote) ∷ []) [] 52 (knows_one-MapRoundTrips (52 ∷ []) is_vote vote is_vote-eq) votes_lem.0
      votes_lem.1 votes_lem.2

abbrev slot_codes : SlotId
slot_codes = record { view_number = 49; seq_number = 2 }

abbrev slot_digits : SlotId
slot_digits = record { view_number = 1; seq_number = 0 }

abbrev proposal : FullPrePrepare
proposal = record {
  signed_message = record {
    message = record { number = slot_codes; request_digest = 2 };
    signature = [];
  };
  request = "op";
}

abbrev is_proposal : FullPrePrepare → Bool
is_proposal f =
    str_eq f.request "op"
    && (is_empty f.signed_message.signature
        && ((f.signed_message.message.request_digest == 2)
            && ((f.signed_message.message.number.view_number == 49)
                && (f.signed_message.message.number.seq_number == 2))))

is_proposal-eq : (f : FullPrePrepare) → is_proposal f ≡ true → f ≡ proposal
is_proposal-eq f h = ground (arith, is_empty-eq f.signed_message.signature, eq_iff f.request "op")

proposals_lem :
    (marshal_pre_prepares
        (knows_one (49 ∷ 58 ∷ 2 ∷ []) is_proposal proposal)
        ((slot_codes, proposal) ∷ [])
      ≡ ok [])
    × (unmarshal_pre_prepares (knows_one (49 ∷ 58 ∷ 2 ∷ []) is_proposal proposal) []
        ≡ ok ((slot_digits, proposal) ∷ []))
    × (is_some (get slot_codes ((slot_codes, proposal) ∷ [])) ≡ true)
unfolding marshal_pre_prepares unmarshal_pre_prepares rune scan scan_digits positive negative atoi
    split slot_key slot_of_parts slot_of_key texts_from keys_from get put same_text
proposals_lem = (refl, refl, refl)

-- A slot of view 49, whose code is that of the digit 1, with sequence number 2, comes back as slot 0 of
-- view 1.
unmarshal_pre_prepares-digits_example :
    IsDigit 49
    × (◌≢◌ {A = ℕ} 2 58)
    × (is_some (get (shifted slot_codes) ((slot_digits, proposal) ∷ [])) ≡ true)
unmarshal_pre_prepares-digits_example =
    unmarshal_pre_prepares-digits (knows_one (49 ∷ 58 ∷ 2 ∷ []) is_proposal proposal)
      ((slot_codes, proposal) ∷ []) ((slot_digits, proposal) ∷ []) [] slot_codes
      (knows_one-MapRoundTrips (49 ∷ 58 ∷ 2 ∷ []) is_proposal proposal is_proposal-eq)
      proposals_lem.0 proposals_lem.1 proposals_lem.2
