-- ===== src/Pbft/Generation.antt =====
-- The pre-prepares of a new view: which there are, and what each carries.
use distribute_pki.Base.{
  ℕ, zero, suc, ◌+◌, ◌-◌, ◌≤◌, ◌<◌, ◌≡◌, refl, ◌∙◌, ◌≢◌, ◌⊎◌, inl, inr, Bool, true, false, ◌&&◌,
  none, some, [], arith, ltb, leb, ◌==◌, if◌then◌else◌, Bool-cases, Option-cases, nat_eq, string_eq,
  Result-cases, Map, get, put, get-put_ne, get-put_self,
}
use distribute_pki.Pbft.SlotId.{SlotId, slot_id_eq}
use distribute_pki.Pbft.Messages.{PrePrepare, FullPrePrepare}
use distribute_pki.Pbft.Library.{Library, Host}
use distribute_pki.Pbft.Signing.{sign_pre_prepare}
use distribute_pki.Pbft.Signatures.{message-sign_pre_prepare}
use distribute_pki.Pbft.Node.{Node}
use distribute_pki.Pbft.Normal.{store_pre_prepare}
use distribute_pki.Pbft.NewViews.{
  RequestView, Survey, survey, initial_survey, request_for, generate_from, generate_preprepares,
}
use distribute_pki.Pbft.Surveyed.{IsShown, EveryProof, survey-Shown, survey-highest, survey-absent}

abbrev pub slot_in : ℕ → ℕ → SlotId
slot_in view s = record { view_number = view; seq_number = s }

abbrev pub surveyed : Node → Survey
surveyed n = survey n.view_change.messages (initial_survey n)

-- Does a sequence number lie between the bounds of a survey?
abbrev pub in_bounds : ℕ → Survey → Bool
in_bounds t v = ltb v.min_s v.max_s && (leb v.min_s t && leb t v.max_s)

module _ (lib : Library) (me : Host lib) where
  -- A map has, at a sequence number of a view, a pre-prepare for that slot with the survey's request.
  abbrev HasSurveyed : ℕ → Survey → Map SlotId FullPrePrepare → ℕ → Type 0
  HasSurveyed view v made t =
      (full : FullPrePrepare) × (get (slot_in view t) made ≡ some full)
      × (full.signed_message.message.number ≡ slot_in view t)
      × ((full.request, full.signed_message.message.request_digest) ≡ request_for lib t v)

  generate_from-outside :
      (rounds s view : ℕ) (v : Survey) (made made' : Map SlotId FullPrePrepare) (n k : Node) (t : ℕ)
      → generate_from lib me rounds s view v made n ≡ some (made', k)
      → (t < s) ⊎ (s + rounds ≤ t)
      → get (slot_in view t) made' ≡ get (slot_in view t) made
  unfolding generate_from
  generate_from-outside zero s view v made made' n k t h o = ground arith
  generate_from-outside (suc rounds) s view v made made' n k t h o =
      let (request, digest) = request_for lib s v in
      elim (Result-cases (
        sign_pre_prepare lib (record { number = slot_in view s; request_digest = digest })
          me.entity)) [
            | inl (e, p) ↦ ground arith
            | inr (signed, p) ↦
                generate_from-outside rounds (s + 1) view v
                  (put (slot_in view s) (record { signed_message = signed; request = request })
                    made)
                  made' (store_pre_prepare (slot_in view s) request digest signed n) k t
                  (ground arith) (ground arith)
                ∙ get-put_ne (slot_in view s) (slot_in view t) _ made (λ q. ground arith)
          ]

  generate_from-inside :
      (rounds s view : ℕ) (v : Survey) (made made' : Map SlotId FullPrePrepare) (n k : Node) (t : ℕ)
      → generate_from lib me rounds s view v made n ≡ some (made', k)
      → s ≤ t
      → t < s + rounds
      → HasSurveyed view v made' t
  unfolding generate_from
  generate_from-inside zero s view v made made' n k t h lo hi =
      let bad : t < 0 = omega arith in elim bad [ ]
  generate_from-inside (suc rounds) s view v made made' n k t h lo hi =
      let (request, digest) = request_for lib s v in
      let m : PrePrepare = record { number = slot_in view s; request_digest = digest } in
      elim (Result-cases (sign_pre_prepare lib m me.entity)) [
        | inl (e, p) ↦ ground arith
        | inr (signed, p) ↦
            let full : FullPrePrepare = record { signed_message = signed; request = request } in
            let n' = store_pre_prepare (slot_in view s) request digest signed n in
            let rest = put (slot_in view s) full made in
            elim (Bool-cases (s == t)) [
              | inl b ↦ (
                full,
                ground (
                  arith,
                  generate_from-outside rounds (s + 1) view v rest made' n' k s (ground arith)
                      (ground arith),
                  get-put_self (slot_in view s) full made,
                ),
                ground (arith, message-sign_pre_prepare lib m me.entity p),
                ground (arith, message-sign_pre_prepare lib m me.entity p),
              )
              | inr b ↦
                  generate_from-inside rounds (s + 1) view v rest made' n' k t (ground arith)
                    (ground arith) (ground arith)
            ]
      ]

  -- A map has, at a sequence number of a view, a pre-prepare for that slot with the request and the digest
  -- of a proof that the node got for the number, of the highest view of these; or with the empty request,
  -- where it got none.
  abbrev pub HasRequest : ℕ → Node → Map SlotId FullPrePrepare → ℕ → Type 0
  HasRequest view n made t =
      (full : FullPrePrepare) × (get (slot_in view t) made ≡ some full)
      × (full.signed_message.message.number ≡ slot_in view t)
      × (((info : RequestView) × IsShown t info n.view_change.messages
            × (full.request ≡ info.request)
            × (full.signed_message.message.request_digest ≡ info.request_digest)
            × EveryProof (λ num. num.seq_number ≡ t → num.view_number ≤ info.view)
                n.view_change.messages)
          ⊎ ((full.request ≡ "")
              × (full.signed_message.message.request_digest ≡ lib.sha256 "")
              × EveryProof (λ num. num.seq_number ≢ t) n.view_change.messages))

  HasRequest-surveyed :
      (view : ℕ) (n : Node) (made : Map SlotId FullPrePrepare) (t : ℕ)
      → HasSurveyed view (surveyed n) made t
      → HasRequest view n made t
  unfolding request_for
  HasRequest-surveyed view n made t (full, found, number, carried) =
      let messages = n.view_change.messages in
      let v : Survey = initial_survey n in
      (
        full,
        found,
        number,
        elim (Option-cases (get t (surveyed n).seq_nums)) [
          | inl e ↦
              inr (ground (arith, carried), ground (arith, carried), survey-absent messages v t e)
          | inr (info, e) ↦ inl (
            info,
            survey-Shown messages v t info refl e,
            ground (arith, carried),
            ground (arith, carried),
            survey-highest messages v t info e,
          )
        ],
      )

  -- Of the pre-prepares that the leader of a new view builds there is one for a sequence number exactly
  -- if the survey's lower bound is below its upper bound and the number lies between the two, both
  -- included; and it is for that slot, with the request and the digest of a proof for the number in the
  -- view changes that the leader has, of the highest view of these, or with the empty request where
  -- there is no such proof.
  pub generate_preprepares-HasRequest :
      (view : ℕ) (n k : Node) (made : Map SlotId FullPrePrepare) (t : ℕ)
      → generate_preprepares lib me view n ≡ some (made, k)
      → ((in_bounds t (surveyed n) ≡ true) × HasRequest view n made t)
        ⊎ ((in_bounds t (surveyed n) ≡ false) × (get (slot_in view t) made ≡ none))
  unfolding generate_preprepares get
  generate_preprepares-HasRequest view n k made t h =
      let v : Survey = surveyed n in
      let rounds : ℕ = (if ltb v.min_s v.max_s then v.max_s + 1 - v.min_s else 0) in
      elim (Option-cases (generate_from lib me rounds v.min_s view v [] n)) [
        | inl e ↦ ground arith
        | inr (r, e) ↦ elim (Bool-cases (in_bounds t v)) [
          | inl b ↦ inl (
            b,
            HasRequest-surveyed view n made t (
                generate_from-inside rounds v.min_s view v [] made n r.1 t (ground arith)
                  (ground arith) (ground arith)),
          )
          | inr b ↦ inr (
            b,
            generate_from-outside rounds v.min_s view v [] made n r.1 t (ground arith)
                (ground arith),
          )
        ]
      ]
