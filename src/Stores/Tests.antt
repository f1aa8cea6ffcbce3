-- ===== src/Stores/Tests.antt =====
-- A store that is suspended with a reason.
