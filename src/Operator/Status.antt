-- ===== src/Operator/Status.antt =====
-- pkg/operator/status.go: the status of the operator's ClusterOperator. What fmt makes of a string, a
-- number or an error, and the environment's RELEASE_VERSION, are parameters.
pub mod Profiles
pub mod Counts
pub mod Drafts
pub mod Sync
pub mod Publish
pub mod Laws
