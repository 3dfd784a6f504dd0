-- ===== src/Model/Tests.antt =====
-- Runs of the model router on a small registry, and its theorems at them.
mod Data
mod Demands
mod Plans
