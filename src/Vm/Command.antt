-- ===== src/Vm/Command.antt =====
-- `buildBhyveCommand`: the command line of a machine. An option that names a PCI slot keeps the slot
-- as a number until the words are written out.
pub mod Slots
use bhyve_mcp.Common.{
  ℕ, suc, ◌+◌, ℤ, show_ℕ, show_ℤ, add_ℕ, String, ◌<>◌, ◌=ₛ◌, Bool, ◌||◌, List, [], ◌∷◌, ◌++◌, Exec,
  pure, length, if◌then◌else◌,
}
use bhyve_mcp.Config.{Config, VmConfig, DiskConfig, NetConfig, ConsoleDeviceConfig}
use bhyve_mcp.Vm.Types.{Vm, World}

pub data Arg : Type 0 where
  word : String → Arg
  -- a flag and its value
  option : String → String → Arg
  -- `-s`, a slot and its device
  slot : ℕ → String → Arg

abbrev word_list : Arg → List String
word_list (word s) = s ∷ []
word_list (option f s) = f ∷ s ∷ []
word_list (slot n device) = "-s" ∷ (show_ℕ n <> "," <> device) ∷ []

unfoldable pub words : List Arg → List String
words [] = []
words (a ∷ args) = word_list a ++ words args

-- The three cases of the source's `switch` on the type are the same.
disk_args : ℕ → List DiskConfig → List Arg
disk_args n [] = []
disk_args n (d ∷ disks) = slot n ("virtio-blk," <> d.path) ∷ disk_args (suc n) disks

net_args : ℕ → List NetConfig → List Arg
net_args n [] = []
net_args n (_ ∷ nets) = slot n "virtio-net,tap0" ∷ net_args (suc n) nets

console_args : List ConsoleDeviceConfig → List Arg
console_args [] = []
console_args (c ∷ consoles) =
    let rest = console_args consoles in
    if c.console_type =ₛ "nmdm" then option "-l" ("com1," <> c.device) ∷ rest else rest

firmware_args : String → List Arg
firmware_args firmware = if firmware =ₛ "" then [] else option "-l" ("bootrom," <> firmware) ∷ []

abbrev pub vnc_enabled : Config → VmConfig → Bool
vnc_enabled cfg c = c.vnc.enabled || cfg.vnc.enabled

vnc_args : Config → VmConfig → ℤ → ℕ → List Arg
vnc_args cfg c port n =
    if vnc_enabled cfg c
    then slot n ("fbuf,tcp=" <> cfg.vnc.bind <> ":" <> show_ℤ port <> ",wait")
      ∷ slot (suc n) "xhci,tablet"
      ∷ []
    else []

-- The arguments before they are written out, for the port that comes next.
unfoldable pub command_args : Config → Vm → ℤ → List Arg
unfolding disk_args net_args console_args firmware_args vnc_args
command_args cfg v port =
    let c = v.config in
    let first_net = 2 + length c.disks in
    let first_vnc = first_net + length c.network in
    option "-c" (show_ℤ c.cpu)
    ∷ option "-m" c.memory
    ∷ word "-H"
    ∷ word "-w"
    ∷ word "-u"
    ∷ slot 0 "hostbridge"
    ∷ slot 1 "lpc"
    ∷ (firmware_args c.boot.firmware
        ++ (disk_args 2 c.disks
            ++ (net_args first_net c.network
                ++ (vnc_args cfg c port first_vnc
                    ++ (console_args c.console ++ (word v.name ∷ []))))))

-- The method takes the next VNC port if the machine has a framebuffer.
unfoldable pub build_bhyve_command : Vm → Exec World (List String)
unfolding command_args words
build_bhyve_command v w =
    let m = w.manager in
    pure ("bhyve" ∷ words (command_args m.config v m.vnc_port_next)) (
      if vnc_enabled m.config v.config
      then record w { manager = record m { vnc_port_next = add_ℕ m.vnc_port_next 1 } }
      else w)
