-- ===== src/Flows/Classes.antt =====
-- The event classes that flows refer to.
