-- ===== src/Vm/Command/Slots.antt =====
-- The PCI slots that a command line uses.
use bhyve_mcp.Common.{
  ℕ, zero, suc, ◌+◌, ℤ, ◌≡◌, refl, ◌∙◌, ap, arith, List, [], ◌∷◌, ◌++◌, length, String,
  if◌then◌else◌,
}
use mathlib.Core.List.{append-nil}
use native.Mathlib.Nat.{zero-add, add-zero, suc-add, add-suc}
use bhyve_mcp.Config.{Config, DiskConfig, NetConfig, ConsoleDeviceConfig, VmConfig}
use bhyve_mcp.Vm.Types.{Vm}
use bhyve_mcp.Vm.Command.{
  Arg, word, option, slot, disk_args, net_args, console_args, firmware_args, vnc_args, command_args,
  vnc_enabled,
}

abbrev pub slots : List Arg → List ℕ
slots [] = []
slots (slot n _ ∷ args) = n ∷ slots args
slots (word _ ∷ args) = slots args
slots (option _ _ ∷ args) = slots args

-- `n`, `n + 1`, and so on: `k` numbers.
abbrev pub from : ℕ → ℕ → List ℕ
from n zero = []
from n (suc k) = n ∷ from (suc n) k

slots-append : (a b : List Arg) → slots (a ++ b) ≡ slots a ++ slots b
slots-append [] b = refl
slots-append (word _ ∷ a) b = slots-append a b
slots-append (option _ _ ∷ a) b = slots-append a b
slots-append (slot n _ ∷ a) b = ap (λ (r : List ℕ). n ∷ r) (slots-append a b)

from-add : (n j k : ℕ) → from n (j + k) ≡ from n j ++ from (n + j) k
from-add n zero k = rw (zero-add, add-zero)
from-add n (suc j) k =
    rw (suc-add, add-suc) (ap (λ (r : List ℕ). n ∷ r) (from-add (suc n) j k ∙ rw suc-add))

slots-disk_args : (n : ℕ) (ds : List DiskConfig) → slots (disk_args n ds) ≡ from n (length ds)
unfolding disk_args
slots-disk_args n [] = refl
slots-disk_args n (d ∷ ds) = ap (λ (r : List ℕ). n ∷ r) (slots-disk_args (suc n) ds)

slots-net_args : (n : ℕ) (ds : List NetConfig) → slots (net_args n ds) ≡ from n (length ds)
unfolding net_args
slots-net_args n [] = refl
slots-net_args n (d ∷ ds) = ap (λ (r : List ℕ). n ∷ r) (slots-net_args (suc n) ds)

slots-console_args : (cs : List ConsoleDeviceConfig) → slots (console_args cs) ≡ []
unfolding console_args
slots-console_args [] = refl
slots-console_args (c ∷ cs) = ground (arith, slots-console_args cs)

slots-firmware_args : (f : String) → slots (firmware_args f) ≡ []
unfolding firmware_args
slots-firmware_args f = ground arith

slots-vnc_args :
    (cfg : Config) (c : VmConfig) (port : ℤ) (n : ℕ)
    → slots (vnc_args cfg c port n) ≡ from n (if vnc_enabled cfg c then 2 else 0)
unfolding vnc_args
slots-vnc_args cfg c port n = ground arith

device_slots :
    (f name : String) (ds : List DiskConfig) (ns : List NetConfig) (cs : List ConsoleDeviceConfig)
    (cfg : Config) (c : VmConfig) (port : ℤ)
    → slots (
        firmware_args f
        ++ (disk_args 2 ds
            ++ (net_args (2 + length ds) ns
                ++ (vnc_args cfg c port (2 + length ds + length ns)
                    ++ (console_args cs ++ (word name ∷ []))))))
      ≡ from 2 (length ds + (length ns + (if vnc_enabled cfg c then 2 else 0)))
device_slots f name ds ns cs cfg c port = simp (
  slots-append, slots-firmware_args, slots-disk_args, slots-net_args, slots-vnc_args,
  slots-console_args, from-add, append-nil,
)

-- The devices of a command line take the slots 0, 1, 2 and so on, each once and with no gap: the
-- host bridge, the LPC, one for each disk and each network, and two for the framebuffer.
pub slots-command_args :
    (cfg : Config) (v : Vm) (port : ℤ)
    → let screens : ℕ = if vnc_enabled cfg v.config then 2 else 0 in
      slots (command_args cfg v port)
      ≡ from 0 (suc (suc (length v.config.disks + (length v.config.network + screens))))
unfolding command_args
slots-command_args cfg v port =
    ap (λ (r : List ℕ). 0 ∷ 1 ∷ r)
      (device_slots v.config.boot.firmware v.name v.config.disks v.config.network v.config.console
        cfg v.config port)
