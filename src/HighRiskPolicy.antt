-- ===== src/HighRiskPolicy.antt =====
-- scripts/ci/check-high-risk-policy.py: the high-risk constructs of a manifest, as lines of text,
-- compared with a baseline of reviewed exceptions. `Texts` builds the lines, `Patterns` has the
-- regular expressions, `Containers` and `Pods` the rules on workloads, `Rbac` those on roles.
pub mod Texts
pub mod Patterns
pub mod Containers
pub mod Pods
pub mod Rbac
pub mod Network
pub mod Normalize
pub mod Sources
pub mod Resource
pub mod Detect
pub mod Baseline
pub mod Guarantee
pub mod Tests
