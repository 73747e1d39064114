-- ===== src/Tests/Exports.antt =====
-- The theorem about the export, at a daemon with one secret.
