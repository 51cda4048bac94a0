-- ===== src/Command/Server/Kept.antt =====
-- What one command of the server leaves for the next.
