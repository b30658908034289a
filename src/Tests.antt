-- ===== src/Tests.antt =====
-- Runs of the modelled code on concrete inputs, and instances of the theorems.
mod Safety
mod Route
mod Execute
mod Diag
mod Explain
mod Pool
mod Simulate
mod Mcp
mod Risk
mod Texts
mod Version
