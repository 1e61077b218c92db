-- ===== src/Mcp.antt =====
-- internal/mcp/server.go: the server, which answers JSON-RPC requests by calls of the managers.
-- `Types` has its state and the values that it answers with, the modules of handlers one function
-- for each kind of request, `Dispatch` the method HandleRequest, and `Running` the methods
-- Initialize and Run.
pub mod Types
pub mod VmHandlers
pub mod DiskHandlers
pub mod StoreHandlers
pub mod SwitchHandlers
pub mod Dispatch
pub mod Running
pub mod Settling
pub mod Requests
pub mod Refusing
pub mod Keeping
pub mod Present
