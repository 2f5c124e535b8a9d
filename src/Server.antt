-- ===== src/Server.antt =====
-- src/distributepki: the key server on top of the consensus node.
pub mod Keystore
pub mod Kvstore
pub mod KeyLookups
pub mod Replicas
pub mod KeyRequests
pub mod Cluster
pub mod Directory
pub mod ClientApi
pub mod KeyNode
pub mod Http
pub mod Commands
pub mod Spawn
pub mod Console
pub mod HttpClient
pub mod Acceptance
pub mod Putting
pub mod Authorised
pub mod Answers
pub mod Histories
pub mod Processes
pub mod Authority
pub mod AuthorityMain
pub mod Pending
pub mod Waiting
mod Examples
mod RequestExamples
mod ProcessExamples
mod HttpExamples
mod ClusterExamples
mod PuttingExamples
mod DirectoryExamples
