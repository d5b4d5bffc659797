-- ===== src/Kernel/Tests.antt =====
-- The theorems on the questions to the system at concrete platforms.
