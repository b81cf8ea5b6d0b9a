-- ===== src/Performance.antt =====
-- pkg/apis/performanceprofile/v2: the PerformanceProfile and its validation.
pub mod Types
pub mod Validation
