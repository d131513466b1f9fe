-- ===== src/LoadGenerator/Accounts.antt =====
-- What `runAction` of cmd/load-generator/main.go counts and remembers.
