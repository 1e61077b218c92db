-- ===== src/Tests.antt =====
-- Runs of the model, and the theorems at concrete inputs.
mod Hosts
mod Machines
mod Disks
mod Stores
mod Isos
mod Logs
mod Servers
mod Configs
mod Consoles
mod Reloads
