-- ===== src/Tests.antt =====
-- Runs of the theorems on concrete inputs.
mod Buffers
mod Packets
mod Sessions
mod Games
mod Caches
mod Logins
mod Managers
