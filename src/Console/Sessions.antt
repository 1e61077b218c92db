-- ===== src/Console/Sessions.antt =====
-- The consoles that are open: Open, Close, Read, Write, SendKeys, SendText and ListSessions. No
-- method takes a mutex that it holds, so the mutexes are left out.
pub mod Closing
use bhyve_mcp.Common.{
  ℕ, String, ◌<>◌, Bool, true, false, Option, none, some, List, [], ◌∷◌, Exec, pure, throw,
  throw_if, gets, put, zoom, context, ◌>>=◌, ◌>>◌,
}
use bhyve_mcp.Common.Dict
use bhyve_mcp.Common.Dict.{Dict}
use bhyve_mcp.Host.{
  History, Reply, good, bad, need, ask, open_file, close_file, read_some, write_some,
}
use bhyve_mcp.Console.{ConsoleManager, ConsoleSession}

-- What a read with a time limit gives: some bytes, the end of the file with the last of them, the
-- limit, or another error.
pub data ReadReply : Type 0 where
  got at_end : String → ReadReply
  timed_out : ReadReply
  failed : String → ReadReply

-- Console devices, by the numbers of their open files.
pub record Devices : Type 0 where
  pub open_file : History → String → Reply ℕ
  pub close_file : History → ℕ → Reply (Unit {0})
  pub read_some : History → ℕ → ℕ → ReadReply
  pub write_some : History → ℕ → String → Reply (Unit {0})

pub record ConsoleWorld : Type 0 where
  pub manager : ConsoleManager
  pub history : History

abbrev pub on_device : {A : Type 0} → Exec History A → Exec ConsoleWorld A
on_device = zoom (λ w. w.history) (λ t w. record w { history = t })

abbrev pub set_consoles : (Dict ConsoleSession → Dict ConsoleSession) → ConsoleWorld → ConsoleWorld
set_consoles f w = record w { manager = record (w.manager) { consoles = f w.manager.consoles } }

abbrev pub session : String → ConsoleWorld → Option ConsoleSession
session name w = Dict.lookup name w.manager.consoles

abbrev is_open : Option ConsoleSession → Bool
is_open none = false
is_open (some _) = true

-- `session, exists := m.consoles[vmName]; if !exists { return ... }`
abbrev required : String → Option ConsoleSession → Exec ConsoleWorld ConsoleSession
required name none = throw ("no console session for VM: " <> name)
required name (some s) = pure s

module _ (d : Devices) where
  unfoldable pub open_console : String → String → Exec ConsoleWorld (Unit {0})
  open_console name device = do
    found ← gets (session name)
    throw_if (is_open found) ("console already open for VM: " <> name)
    file ←
        context "failed to open console device"
          (on_device (need (λ past. d.open_file past device) (open_file device)))
    put (set_consoles (Dict.insert name (record { vm_name = name; device = device; file = file })))

  unfoldable pub close_console : String → Exec ConsoleWorld (Unit {0})
  close_console name = do
    found ← gets (session name)
    s ← required name found
    context "failed to close console"
        (on_device (need (λ past. d.close_file past s.file) (close_file s.file)))
    put (set_consoles (Dict.erase name))

  read_reply : ReadReply → Exec ConsoleWorld String
  read_reply (got text) = pure text
  read_reply (at_end text) = pure text
  read_reply timed_out = pure ""
  read_reply (failed e) = throw ("failed to read from console: " <> e)

  unfoldable pub read_console : String → ℕ → Exec ConsoleWorld String
  unfolding read_reply
  read_console name timeout = do
    found ← gets (session name)
    s ← required name found
    reply ← on_device (ask (λ past. d.read_some past s.file timeout) (read_some s.file timeout))
    read_reply reply

  unfoldable pub write_console : String → String → Exec ConsoleWorld (Unit {0})
  write_console name text = do
    found ← gets (session name)
    s ← required name found
    context "failed to write to console"
        (on_device (need (λ past. d.write_some past s.file text) (write_some s.file text)))

  unfoldable pub send_keys : String → String → Exec ConsoleWorld (Unit {0})
  unfolding write_console
  send_keys name keys = write_console name keys

  unfoldable pub send_text : String → String → Exec ConsoleWorld (Unit {0})
  unfolding write_console
  send_text name text = write_console name (text <> "\n")

abbrev keys_of : Dict ConsoleSession → List String
keys_of [] = []
keys_of ((name, _) ∷ rest) = name ∷ keys_of rest

-- In the order in which the map is gone through.
unfoldable pub list_sessions : ConsoleManager → List String
list_sessions m = keys_of m.consoles
