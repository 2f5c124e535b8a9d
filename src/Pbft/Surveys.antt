-- ===== src/Pbft/Surveys.antt =====
-- What the leader of a new view reads off the view changes: the first loop of
-- `generatePrepreparesForNewView`.
use distribute_pki.Base.{
  ℕ, ◌≤◌, ◌≡◌, inl, inr, ◌&&◌, some, [], ◌∷◌, arith, ltb, ◌==◌, if◌then◌else◌, Bool-cases,
  Option-cases, nat_eq, string_eq, All, All-map, Map, get, get-put, get-put_self,
}
use distribute_pki.Pbft.SlotId.{SlotId}
use distribute_pki.Pbft.Messages.{NodeId, PreparedProof, SignedViewChange}
use distribute_pki.Pbft.NewViews.{RequestView, Survey, keep_highest, survey_proofs, survey}

-- A request is kept for a sequence number, of a view that is no lower than a given one.
abbrev pub IsKept : ℕ → ℕ → Map ℕ RequestView → Type 0
IsKept s view m = (info : RequestView) × (get s m ≡ some info) × (view ≤ info.view)

keep_highest-IsKept :
    (s : ℕ) (info : RequestView) (m : Map ℕ RequestView)
    → IsKept s info.view (keep_highest s info m)
unfolding keep_highest
keep_highest-IsKept s info m = elim (Option-cases (get s m)) [
  | inl e ↦ (info, ground (arith, get-put_self s info m), omega arith)
  | inr (old, e) ↦ elim (Bool-cases (ltb old.view info.view)) [
    | inl b ↦ (info, ground (arith, get-put_self s info m), omega arith)
    | inr b ↦ (old, ground arith, ground arith)
  ]
]

keep_highest-grows :
    (s t view : ℕ) (info : RequestView) (m : Map ℕ RequestView)
    → IsKept t view m
    → IsKept t view (keep_highest s info m)
unfolding keep_highest
keep_highest-grows s t view info m (i, e, lo) = elim (Option-cases (get s m)) [
  | inl p ↦ (i, ground (arith, get-put s t info m), lo)
  | inr (old, p) ↦ elim (Bool-cases (ltb old.view info.view && (s == t))) [
    | inl b ↦ (info, ground (arith, get-put s t info m), ground arith)
    | inr b ↦ (i, ground (arith, get-put s t info m), lo)
  ]
]

-- What one survey has found, a later one has too.
record Grows (v v' : Survey) : Type 0 where
  lowest : v.min_s ≤ v'.min_s
  highest : v.max_s ≤ v'.max_s
  kept : (t view : ℕ) → IsKept t view v.seq_nums → IsKept t view v'.seq_nums

survey_proofs-Grows :
    (proofs : Map SlotId PreparedProof) (v : Survey) → Grows v (survey_proofs proofs v)
unfolding survey_proofs
survey_proofs-Grows [] v = record {
  lowest = omega arith;
  highest = omega arith;
  kept = λ t view k. k;
}
survey_proofs-Grows ((num, proof) ∷ proofs) v =
    let info : RequestView = record {
      request = proof.request;
      request_digest = proof.request_digest;
      view = num.view_number;
    } in
    let v' : Survey = record v {
      max_s = (if ltb v.max_s num.seq_number then num.seq_number else v.max_s);
      seq_nums = keep_highest num.seq_number info v.seq_nums;
    } in
    let g = survey_proofs-Grows proofs v' in
    record {
      lowest = g.lowest;
      highest = ground (arith, g.highest);
      kept = λ t view k. g.kept t view (keep_highest-grows num.seq_number t view info v.seq_nums k);
    }

-- A survey has a proof's sequence number within its bound, and keeps for it a request of a view that
-- is no lower than the proof's.
pub record Covers (v : Survey) (num : SlotId) : Type 0 where
  pub bounded : num.seq_number ≤ v.max_s
  pub kept : IsKept num.seq_number num.view_number v.seq_nums

Covers-Grows : {v v' : Survey} (num : SlotId) → Grows v v' → Covers v num → Covers v' num
Covers-Grows num g c = record {
  bounded = omega (arith, c.bounded, g.highest);
  kept = g.kept num.seq_number num.view_number c.kept;
}

survey_proofs-Covers :
    (proofs : Map SlotId PreparedProof) (v : Survey)
    → All (λ e. Covers (survey_proofs proofs v) e.0) proofs
unfolding survey_proofs
survey_proofs-Covers [] v = tt
survey_proofs-Covers ((num, proof) ∷ proofs) v =
    let info : RequestView = record {
      request = proof.request;
      request_digest = proof.request_digest;
      view = num.view_number;
    } in
    let v' : Survey = record v {
      max_s = (if ltb v.max_s num.seq_number then num.seq_number else v.max_s);
      seq_nums = keep_highest num.seq_number info v.seq_nums;
    } in
    (
      Covers-Grows num (survey_proofs-Grows proofs v') (record {
        bounded = ground arith;
        kept = keep_highest-IsKept num.seq_number info v.seq_nums;
      }),
      survey_proofs-Covers proofs v',
    )

Grows-trans : {v v' w : Survey} → Grows v v' → Grows v' w → Grows v w
Grows-trans g h = record {
  lowest = omega (arith, g.lowest, h.lowest);
  highest = omega (arith, g.highest, h.highest);
  kept = λ t view k. h.kept t view (g.kept t view k);
}

-- The survey after a view change's checkpoint is read.
raise_lowest : SignedViewChange → Survey → Survey
raise_lowest vc v = record v {
  min_s =
      (if ltb v.min_s vc.message.checkpoint.seq_number
        then vc.message.checkpoint.seq_number
        else v.min_s);
}

raise_lowest-Grows : (vc : SignedViewChange) (v : Survey) → Grows v (raise_lowest vc v)
unfolding raise_lowest
raise_lowest-Grows vc v = record {
  lowest = ground arith;
  highest = omega arith;
  kept = λ t view k. k;
}

survey-Grows : (messages : Map NodeId SignedViewChange) (v : Survey) → Grows v (survey messages v)
unfolding survey raise_lowest
survey-Grows [] v = record { lowest = omega arith; highest = omega arith; kept = λ t view k. k }
survey-Grows ((node, vc) ∷ messages) v = Grows-trans (raise_lowest-Grows vc v) (
    Grows-trans (survey_proofs-Grows vc.message.proofs (raise_lowest vc v))
      (survey-Grows messages (survey_proofs vc.message.proofs (raise_lowest vc v))))

-- The survey reads every view change: its lower bound is at least the checkpoint of each, and for each
-- of their proofs its upper bound is at least the proof's sequence number and it keeps for that number
-- a request of a view that is no lower than the proof's.
pub survey-Covers :
    (messages : Map NodeId SignedViewChange) (v : Survey)
    → All
        (λ m.
          (m.1.message.checkpoint.seq_number ≤ (survey messages v).min_s)
          × All (λ e. Covers (survey messages v) e.0) m.1.message.proofs)
        messages
unfolding survey raise_lowest
survey-Covers [] v = tt
survey-Covers ((node, vc) ∷ messages) v =
    let w : Survey = survey_proofs vc.message.proofs (raise_lowest vc v) in
    let g = survey-Grows messages w in
    let lo = (survey_proofs-Grows vc.message.proofs (raise_lowest vc v)).lowest in
    (
      (
        ground (arith, g.lowest, lo),
        All-map vc.message.proofs (λ e. Covers-Grows e.0 g)
            (survey_proofs-Covers vc.message.proofs (raise_lowest vc v)),
      ),
      survey-Covers messages w,
    )
