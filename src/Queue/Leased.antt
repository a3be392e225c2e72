-- ===== src/Queue/Leased.antt =====
-- What `Lease` returns, and what it leaves in the tables, where no statement fails.
