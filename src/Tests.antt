-- ===== src/Tests.antt =====
-- Concrete inputs, and the theorems at them.
mod Data
mod Spans
mod Hooks
mod Providers
mod Writers
mod Workers
mod Semblends
