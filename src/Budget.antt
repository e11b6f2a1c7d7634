-- ===== src/Budget.antt =====
-- Per-tenant budget gating: apps/api/app/services/cost_service.py, budget_reservation.py and
-- apps/api/app/db/repositories/budgets.py.
pub mod Pricing
pub mod Decision
pub mod Reservation
pub mod Repository
pub mod Concurrent
