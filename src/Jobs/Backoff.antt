-- ===== src/Jobs/Backoff.antt =====
-- The delays of a retry policy.
