-- ===== src/Vm.antt =====
-- internal/vm/manager.go: the manager of the virtual machines. `Types` has its state, `Command` the
-- command line of bhyve, `Lifecycle` the methods that change one machine, and `Loading` those that
-- read configurations or go through all machines.
pub mod Types
pub mod Command
pub mod Lifecycle
pub mod Loading
pub mod Invariant
pub mod Requests
pub mod Refinement
