-- ===== src/Examples.antt =====
-- Tests of the definitions, and each theorem applied to concrete data.
mod Computed
mod Exchange
mod Retirement
mod Orders
mod Store
mod Numbers
mod Alerts
mod Screens
mod Actions
