-- ===== src/Pbft/NewViews/Surveying.antt =====
-- The first loop of `generatePrepreparesForNewView` of src/pbft/view_change.go.
use distribute_pki.Base.{
  ℕ, String, none, some, [], ◌∷◌, ltb, if◌then◌else◌, nat_eq, string_eq, Map, get, put,
}
use distribute_pki.Pbft.SlotId.{SlotId, slot_id_eq}
use distribute_pki.Pbft.Messages.{NodeId, Digest, PreparedProof, SignedViewChange}
use distribute_pki.Pbft.Library.{Library}
use distribute_pki.Pbft.Node.{Node}

pub record RequestView : Type 0 where
  pub request : String
  pub request_digest : Digest
  pub view : ℕ

-- The variables of the first loop of `generatePrepreparesForNewView`.
pub record Survey : Type 0 where
  pub min_s : ℕ
  pub max_s : ℕ
  pub seq_nums : Map ℕ RequestView

-- seqNums[s] = info, unless an entry of no lower view stands there
unfoldable pub keep_highest : ℕ → RequestView → Map ℕ RequestView → Map ℕ RequestView
keep_highest s info seq_nums = elim (get s seq_nums) [
  | none ↦ put s info seq_nums
  | some previous ↦ if ltb previous.view info.view then put s info seq_nums else seq_nums
]

unfoldable pub survey_proofs : Map SlotId PreparedProof → Survey → Survey
survey_proofs [] v = v
survey_proofs ((num, proof) ∷ proofs) v = survey_proofs proofs (record v {
  max_s = (if ltb v.max_s num.seq_number then num.seq_number else v.max_s);
  seq_nums =
      keep_highest num.seq_number
        (record {
          request = proof.request;
          request_digest = proof.request_digest;
          view = num.view_number;
        })
        v.seq_nums;
})

unfoldable pub survey : Map NodeId SignedViewChange → Survey → Survey
survey [] v = v
survey ((node, vc) ∷ messages) v = survey messages (
    survey_proofs vc.message.proofs (record v {
      min_s =
          (if ltb v.min_s vc.message.checkpoint.seq_number
            then vc.message.checkpoint.seq_number
            else v.min_s);
    }))

-- What the new pre-prepare of a sequence number carries: the request of the highest view, or none.
unfoldable pub request_for : Library → ℕ → Survey → String × Digest
request_for lib s v = elim (get s v.seq_nums) [
  | none ↦ ("", lib.sha256 "")
  | some info ↦ (info.request, info.request_digest)
]

-- if maxS > n.issuedSequenceNumber { n.issuedSequenceNumber = maxS }
unfoldable pub raise_issued : ℕ → Node → Node
raise_issued s n = record n {
  issued_sequence_number = (if ltb n.issued_sequence_number s then s else n.issued_sequence_number);
}

abbrev pub initial_survey : Node → Survey
initial_survey n = record {
  min_s = n.last_checkpoint.number.seq_number;
  max_s = n.last_checkpoint.number.seq_number;
  seq_nums = [];
}
