-- ===== src/Lib.antt =====
-- bhyve-mcp: a server that manages bhyve virtual machines on FreeBSD, with their disks and bridges.
--
-- The program is one Go process that answers requests one at a time (internal/mcp/server.go) by calls
-- of its managers. Everything outside the repository (the operating system, its commands, libvmmapi)
-- is the record Host of Host.antt: each call is added to a history, and its reply is an arbitrary
-- function of the calls before it. So a theorem over every Host is one over every behaviour of the
-- system, and a method's commands can be read off the history.
--
-- - Common: shared names; Common/Monad is the state monad with errors and deadlock, Common/Dict a Go
--   map, Common/FilePath and Common/Words the parts of path/filepath and strings that are used.
-- - Config (internal/config/config.go): the structs and setDefaults; Config/File has the functions on
--   files, over a YAML library that is a parameter.
-- - Vmmapi (internal/vmmapi/vmmapi.go): the wrapper of the C library.
-- - Vm (internal/vm/manager.go): Vm/Types is the state with its mutexes, Vm/Lifecycle the methods Get,
--   Create, Start, Stop, Destroy and GetState, Vm/Loading the methods List,
--   GetStatus, LoadVM, LoadAllVMs and Shutdown, Vm/Command the method buildBhyveCommand. A machine is
--   a pointer in Go; here it is reached through its name in the map, which only Destroy removes.
--   A wait for a mutex that the same goroutine holds is the outcome deadlock.
-- - Size: the functions parseSize of the disk, console and ISO packages, on code points.
-- - Disk (internal/disk/manager.go) and Net (internal/net/manager.go): the managers of disks and
--   bridges, whose effects are the commands that they run.
-- - Store (internal/store/store.go): the state file, over a JSON library that is a parameter;
--   Store/Records has the ISO store and the template store, which keep their records as one value of
--   the store. Their mutexes, which no method takes twice, are left out.
--   A JSON null is a nil map or a nil pointer, as the Option none; a write to the one and a use of the
--   other is a panic, which like a deadlock is a call that does not come back.
-- - Iso (internal/iso/downloader.go): the downloader, over the record Web of the answers of HTTP, the
--   bytes that are copied and their checksum.
-- - Console (internal/console/manager.go): the manager and the method ReadLog, over the lines that
--   bufio.Scanner gives; Console/Sessions has the methods on open consoles, over the answers of their
--   devices, and Console/Rotation the writing and the rotation of logs.
-- - Mcp (internal/mcp/server.go): the server. Mcp/Types is its state, Mcp/VmHandlers,
--   Mcp/DiskHandlers, Mcp/StoreHandlers and Mcp/SwitchHandlers are its handlers, Mcp/Dispatch the
--   method HandleRequest, Mcp/Running the methods Initialize and Run. The requests come as a list,
--   decoded or not, whose end is the end of the input; encoding/json is a parameter.
--
-- No fuel is used: all recursion is structural, and the one numeral printer, in Common/Text, has one
-- more step than its number, which is more than its digits. An int of Go is an integer without
-- bounds, but for the sizes, whose 64-bit wrap-around is written out. Process.Wait is taken to come
-- back. The text of a strconv error is shortened to its last words.
--
-- Vm/Refinement is the abstract view of the machines: a state for each name, and the moves that a
-- request can make. Tests has runs on concrete systems.
--
-- Not modelled: the program's entry, which only calls Run; logging; the times and closed log files of
-- the console manager, which nothing reads; concurrent calls of the managers, which the server does
-- not make; the tests of the wrapper.
pub mod Common
pub mod Host
pub mod Config
pub mod Vmmapi
pub mod Vm
pub mod Size
pub mod Disk
pub mod Net
pub mod Store
pub mod Iso
pub mod Console
pub mod Mcp
pub mod Tests
