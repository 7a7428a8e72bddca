-- ===== src/Secrets/Scan/Complete.antt =====
-- What it says of the repository that the scan returns 0.
