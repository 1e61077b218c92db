-- ===== src/Net.antt =====
-- internal/net/manager.go: bridges and TAP interfaces, all through the command ifconfig.
pub mod Switches
pub mod Listing
use bhyve_mcp.Common.{
  String, ◌<>◌, ◌=ₛ◌, Bool, true, false, List, [], ◌∷◌, ◌++◌, Exec, pure, throw, context, ignore,
  catch, attempt, Result, ok, err, ◌>>=◌, ◌>>◌, if◌then◌else◌,
}
use bhyve_mcp.Common.Words.{split, fields, trim_space, contains}
use bhyve_mcp.Host.{Host, History, Reply, good, bad, ask, need, run}

pub record SwitchInfo : Type 0 where
  pub name : String
  pub switch_type : String
  pub interfaces : List String

-- The second word of a line.
abbrev second : List String → List String
second (_ ∷ iface ∷ _) = iface ∷ []
second _ = []

-- The member interfaces that the lines of `ifconfig` name.
unfoldable pub members : List String → List String
unfolding contains fields
members [] = []
members (line ∷ lines) =
    let rest = members lines in
    if contains line "member:" then second (fields line) ++ rest else rest

abbrev found : Result SwitchInfo → List SwitchInfo
found (ok info) = info ∷ []
found (err _) = []

module _ (h : Host) where
  -- `exec.Command("ifconfig", words...)`, by `Run` or by `Output`
  abbrev pub ifconfig : List String → Exec History String
  ifconfig words = need (λ past. h.run past ("ifconfig" ∷ words)) (run ("ifconfig" ∷ words))

  -- The physical interface, if one is given, becomes a member; the bridge is destroyed if that
  -- fails.
  add_interface : Bool → String → String → Exec History (Unit {0})
  add_interface true name iface = pure tt
  add_interface false name iface = do
    catch (ifconfig (name ∷ "addm" ∷ iface ∷ [])) (λ e. do
      ignore (ifconfig (name ∷ "destroy" ∷ []))
      throw ("failed to add interface to bridge: " <> e))
    ignore (ifconfig (iface ∷ "up" ∷ []))

  -- The method `CreateSwitch`.
  unfoldable pub create_switch : String → String → Exec History (Unit {0})
  unfolding add_interface
  create_switch name iface = do
    context "failed to create bridge" (ifconfig (name ∷ "create" ∷ []))
    add_interface (iface =ₛ "") name iface
    context "failed to bring up bridge" (ifconfig (name ∷ "up" ∷ []))
    pure tt

  -- The method `GetSwitch`.
  unfoldable pub get_switch : String → Exec History SwitchInfo
  get_switch name = do
    output ← context "failed to get bridge info" (ifconfig (name ∷ []))
    pure (record { name = name; switch_type = "bridge"; interfaces = members (split 10 output) })

  -- Each member leaves the bridge; errors are dropped.
  unfoldable pub remove_members : String → List String → Exec History (Unit {0})
  remove_members name [] = pure tt
  remove_members name (iface ∷ ifaces) = do
    ignore (ifconfig (name ∷ "deletem" ∷ iface ∷ []))
    remove_members name ifaces

  abbrev members_of : Result SwitchInfo → List String
  members_of (ok info) = info.interfaces
  members_of (err _) = []

  -- The method `DeleteSwitch`.
  unfoldable pub delete_switch : String → Exec History (Unit {0})
  unfolding get_switch
  delete_switch name = do
    info ← attempt (get_switch name)
    remove_members name (members_of info)
    context "failed to destroy bridge" (ifconfig (name ∷ "destroy" ∷ []))
    pure tt

  -- The loop over the names.
  switch_infos : List String → Exec History (List SwitchInfo)
  switch_infos [] = pure []
  switch_infos (name ∷ names) = do
    info ← attempt (get_switch name)
    rest ← switch_infos names
    pure (found info ++ rest)

  abbrev listed : Reply String → Exec History (List SwitchInfo)
  listed (bad _) = pure []
  listed (good output) = switch_infos (fields output)

  -- The method `ListSwitches`.
  unfoldable pub list_switches : Exec History (List SwitchInfo)
  unfolding switch_infos
  list_switches = do
    let words = "ifconfig" ∷ "-a" ∷ "-g" ∷ "bridge" ∷ []
    reply ← ask (λ past. h.run past words) (run words)
    listed reply

  unfoldable pub attach_to_bridge : String → String → Exec History (Unit {0})
  attach_to_bridge bridge tap = do
    context "failed to attach to bridge" (ifconfig (bridge ∷ "addm" ∷ tap ∷ []))
    pure tt

  unfoldable pub detach_from_bridge : String → String → Exec History (Unit {0})
  detach_from_bridge bridge tap = do
    context "failed to detach from bridge" (ifconfig (bridge ∷ "deletem" ∷ tap ∷ []))
    pure tt

  -- The method `CreateTAP`, which gives the interface's name.
  unfoldable pub create_tap : Exec History String
  create_tap = do
    output ← context "failed to create TAP" (ifconfig ("tap" ∷ "create" ∷ []))
    pure (trim_space output)

  unfoldable pub destroy_tap : String → Exec History (Unit {0})
  destroy_tap name = do context "failed to destroy TAP" (ifconfig (name ∷ "destroy" ∷ [])); pure tt
