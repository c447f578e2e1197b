-- ===== src/Mm/Flags/Tests.antt =====
-- Flags of areas that may be read and written.
