-- ===== src/Pbft.antt =====
-- src/pbft: the consensus node.
pub mod SlotId
pub mod Messages
pub mod Json
pub mod JsonKeys
pub mod Library
pub mod Signing
pub mod Replies
pub mod Config
pub mod Node
pub mod Start
pub mod Starting
pub mod Normal
pub mod Checkpoints
pub mod ViewChanges
pub mod Heartbeat
pub mod NewViews
pub mod MainLoop
pub mod Ordering
pub mod Slots
pub mod Signatures
pub mod Views
pub mod Fixtures
mod Runs
mod Examples
mod VoteExamples
pub mod AnswerExamples
pub mod PhaseExamples
mod SealedExamples
mod AliasExamples
mod AgreementExamples
mod JsonExamples
mod ReplyExamples
mod StartExamples
pub mod Proposals
pub mod Commits
pub mod Stability
pub mod Leaders
pub mod Crashes
pub mod Survival
pub mod Votes
pub mod Surveys
pub mod Surveyed
pub mod Invariants
pub mod Contents
pub mod Sealed
pub mod Digests
pub mod Endorsed
pub mod Agreement
pub mod SameRequests
pub mod Deliveries
pub mod Shown
pub mod Aliases
pub mod Placement
pub mod Adoption
pub mod Completion
pub mod Preparations
pub mod Voting
pub mod Phases
pub mod Rpc
pub mod Generation
pub mod Answers
