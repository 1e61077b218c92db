-- ===== src/Vmmapi.antt =====
-- internal/vmmapi/vmmapi.go: the wrapper of the C library libvmmapi.
use bhyve_mcp.Common.{
  ℕ, ℤ, is_zero, show_ℤ, String, ◌<>◌, Option, none, some, Exec, pure, throw, ◌>>=◌, ◌>>◌,
  if◌then◌else◌,
}
use bhyve_mcp.Host.{Host, History, ask, vm_create, vm_open, vm_close, vm_destroy, vm_setup_memory}

-- The struct `VM`: the C handle, nil once it is closed, and the name.
pub record Handle : Type 0 where
  pub ctx : Option ℕ
  pub name : String

pub data State : Type 0 where
  unknown stopped running paused : State
  other : ℤ → State

-- The method `String`.
unfoldable pub state_text : State → String
state_text stopped = "stopped"
state_text running = "running"
state_text paused = "paused"
state_text _ = "unknown"

-- The method `Close`, with the handle after it.
unfoldable pub close : Handle → Exec History Handle
close v = elim v.ctx [
  | none ↦ pure v
  | some c ↦ do ask (λ past. tt) (vm_close c); pure (record v { ctx = none })
]

-- The method `Destroy`, with the handle after it.
unfoldable pub destroy : Handle → Exec History Handle
destroy v = elim v.ctx [
  | none ↦ pure v
  | some c ↦ do ask (λ past. tt) (vm_destroy c); pure (record v { ctx = none })
]

-- `GetState` answers `StateStopped` for every machine.
unfoldable pub get_state : Handle → State
get_state v = stopped

module _ (h : Host) where
  unfoldable pub create : String → Exec History ℤ
  create name = do
    ret ← ask (λ past. h.vm_create past name) (vm_create name)
    if is_zero ret
        then pure ret
        else throw ("failed to create VM: " <> name <> " (error: " <> show_ℤ ret <> ")")

  -- `Open`
  unfoldable pub open_vm : String → Exec History Handle
  open_vm name = do
    handle ← ask (λ past. h.vm_open past name) (vm_open name)
    elim handle [
      | none ↦ throw ("failed to open VM: " <> name)
      | some c ↦ pure (record { ctx = some c; name = name })
    ]

  unfoldable pub setup_memory : Handle → ℕ → Exec History (Unit {0})
  setup_memory v size = do
    ret ← ask (λ past. h.vm_setup_memory past v.ctx size) (vm_setup_memory v.ctx size)
    if is_zero ret then pure tt else throw ("failed to setup memory: " <> show_ℤ ret)
