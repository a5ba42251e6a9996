-- ===== src/Tests.antt =====
-- Concrete runs of the definitions, and the theorems applied to them.
mod Policy
mod Admission
mod Runs
mod Repeats
mod Deliveries
mod Prices
mod Schedules
mod Supervised
mod Journals
