-- ===== src/Auth/Tests.antt =====
-- A concrete identifier of internal/auth/generator.go.
