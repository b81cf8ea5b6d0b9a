-- ===== src/Tests.antt =====
-- The theorems at concrete inputs, and runs of the definitions.
mod Util
mod Pods
mod Nodes
mod Rules
mod Selection
mod Status
mod Validation
mod Profiles
mod Daemon
mod Syncing
mod MachineConfigs
mod Hosted
