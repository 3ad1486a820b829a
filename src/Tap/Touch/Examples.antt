-- ===== src/Tap/Touch/Examples.antt =====
-- Two fingers on a pouring tap.
