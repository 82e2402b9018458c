-- ===== src/Glob.antt =====
-- internal/sloff/glob/glob.go: the expansion of patterns with its two caches. EscapesRoot is in
-- Spec/Paths.
pub mod Expander
