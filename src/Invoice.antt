-- ===== src/Invoice.antt =====
-- Invoices: the schema (shared/schemas/invoice.py), the totals (shared/invoice_calc.py).
pub mod Schema
pub mod Totals
pub mod Bounds
pub mod Offers
pub mod Savings
pub mod Service
pub mod Consistent
pub mod Recorded
mod Tests
