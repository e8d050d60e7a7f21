-- ===== src/Tests.antt =====
-- Concrete heaps, and the theorems at inputs that meet their hypotheses.
mod Samples
mod Zones
mod Heaps
mod Leaks
mod Registries
mod Passes
mod Programs
mod Prototypes
mod Outputs
mod Runtimes
mod Routes
mod Strings
mod Races
