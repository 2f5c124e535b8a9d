-- ===== src/Pbft/Surveyed.antt =====
-- Where the requests of a survey come from: the second half of what the first loop of
-- `generatePrepreparesForNewView` does.
use distribute_pki.Base.{
  ℕ, ◌≤◌, ◌≡◌, ◌≢◌, ◌⊎◌, inl, inr, none, some, [], ◌∷◌, arith, nat_eq, string_eq, All, All-map, Map,
  get, get-put,
}
use distribute_pki.Pbft.SlotId.{SlotId}
use distribute_pki.Pbft.Messages.{NodeId, PreparedProof, SignedViewChange}
use distribute_pki.Pbft.NewViews.{RequestView, Survey, keep_highest, survey_proofs, survey}
use distribute_pki.Pbft.Surveys.{Covers, survey-Covers}

-- One of the proofs is for a sequence number, and has this request, digest and view.
abbrev pub IsProved : ℕ → RequestView → Map SlotId PreparedProof → Type 0
IsProved t info [] = ⊥
IsProved t info ((num, proof) ∷ proofs) =
    ((num.seq_number ≡ t)
      × (info ≡ record {
        request = proof.request;
        request_digest = proof.request_digest;
        view = num.view_number;
      }))
    ⊎ IsProved t info proofs

-- One of the view changes has such a proof.
abbrev pub IsShown : ℕ → RequestView → Map NodeId SignedViewChange → Type 0
IsShown t info [] = ⊥
IsShown t info ((node, vc) ∷ messages) = IsProved t info vc.message.proofs ⊎ IsShown t info messages

-- Every proof of the view changes satisfies a predicate on its slot.
abbrev pub EveryProof : (SlotId → Type 0) → Map NodeId SignedViewChange → Type 0
EveryProof P messages = All (λ m. All (λ e. P e.0) m.1.message.proofs) messages

keep_highest-source :
    (s t : ℕ) (info kept : RequestView) (m : Map ℕ RequestView)
    → get t (keep_highest s info m) ≡ some kept
    → ((s ≡ t) × (kept ≡ info)) ⊎ (get t m ≡ some kept)
unfolding keep_highest
keep_highest-source s t info kept m h = ground (arith, get-put s t info m)

survey_proofs-source :
    (proofs : Map SlotId PreparedProof) (v : Survey) (t : ℕ) (kept : RequestView)
    → get t (survey_proofs proofs v).seq_nums ≡ some kept
    → IsProved t kept proofs ⊎ (get t v.seq_nums ≡ some kept)
unfolding survey_proofs
survey_proofs-source [] v t kept h = inr h
survey_proofs-source ((num, proof) ∷ proofs) v t kept h =
    elim (survey_proofs-source proofs _ t kept h) [
      | inl p ↦ inl (inr p)
      | inr p ↦ elim (keep_highest-source num.seq_number t _ kept v.seq_nums p) [
        | inl q ↦ inl (inl q)
        | inr q ↦ inr q
      ]
    ]

survey-source :
    (messages : Map NodeId SignedViewChange) (v : Survey) (t : ℕ) (kept : RequestView)
    → get t (survey messages v).seq_nums ≡ some kept
    → IsShown t kept messages ⊎ (get t v.seq_nums ≡ some kept)
unfolding survey
survey-source [] v t kept h = inr h
survey-source ((node, vc) ∷ messages) v t kept h = elim (survey-source messages _ t kept h) [
  | inl p ↦ inl (inr p)
  | inr p ↦ elim (survey_proofs-source vc.message.proofs _ t kept p) [
    | inl q ↦ inl (inl q)
    | inr q ↦ inr q
  ]
]

-- No proof for the number is of a higher view than what the survey keeps, and there is none for a number
-- for which it keeps nothing.
pub survey-highest :
    (messages : Map NodeId SignedViewChange) (v : Survey) (t : ℕ) (kept : RequestView)
    → get t (survey messages v).seq_nums ≡ some kept
    → EveryProof (λ num. num.seq_number ≡ t → num.view_number ≤ kept.view) messages
survey-highest messages v t kept h =
    All-map messages
      (λ m c.
        All-map m.1.message.proofs
          (λ e (covers : Covers (survey messages v) e.0) same.
            let (info, found, lo) = covers.kept in ground (arith, found, lo, same))
          c.1)
      (survey-Covers messages v)

pub survey-absent :
    (messages : Map NodeId SignedViewChange) (v : Survey) (t : ℕ)
    → get t (survey messages v).seq_nums ≡ none
    → EveryProof (λ num. num.seq_number ≢ t) messages
survey-absent messages v t h =
    All-map messages
      (λ m c.
        All-map m.1.message.proofs
          (λ e (covers : Covers (survey messages v) e.0) same.
            let (info, found, lo) = covers.kept in ground (arith, found, same))
          c.1)
      (survey-Covers messages v)

pub survey-Shown :
    (messages : Map NodeId SignedViewChange) (v : Survey) (t : ℕ) (kept : RequestView)
    → v.seq_nums ≡ []
    → get t (survey messages v).seq_nums ≡ some kept
    → IsShown t kept messages
unfolding get
survey-Shown messages v t kept e h = elim (survey-source messages v t kept h) [
  | inl p ↦ p
  | inr p ↦ ground (arith, e)
]
