-- ===== src/Performance/Validation.antt =====
-- pkg/apis/performanceprofile/v2/performanceprofile_validation.go.
pub mod Cpus
pub mod Fields
pub mod Devices
pub mod Basic
pub mod Pages
pub mod Identifiers
pub mod Laws
