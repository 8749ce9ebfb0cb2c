-- ===== src/Controller/Reconcile/Kept.antt =====
-- The conditions that a reconciliation leaves alone.
