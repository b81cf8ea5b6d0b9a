-- ===== src/Operator.antt =====
-- pkg/operator: the profile calculator and the operator's status.
pub mod Types
pub mod State
pub mod Match
pub mod Pods
pub mod Nodes
pub mod Recommend
pub mod Pools
pub mod Calculate
pub mod MachineConfigs
pub mod Hosted
pub mod Status
