-- ===== src/Mm/Tests.antt =====
-- The page arithmetic's theorems at concrete addresses.
