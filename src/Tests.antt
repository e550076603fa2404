-- ===== src/Tests.antt =====
-- The theorems at concrete inputs, on a small library.
mod Sim
mod Ascii
mod Containers
mod Values
mod Goroutines
mod Figures
mod Examples
mod Handed
mod Stress
mod Piping
