-- ===== src/Secrets.antt =====
-- scripts/ci/validate-secrets.py: the check of the repository's Secrets. `Envelopes` reads the
-- encrypted texts, `Rules` the creation rules, `Validate` judges one Secret, `Scan` is `main`.
pub mod Envelopes
pub mod Rules
pub mod Validate
pub mod Scan
pub mod Files
pub mod Tests
