-- ===== src/Tests/Machines.antt =====
-- The manager of the machines on concrete systems.
use bhyve_mcp.Common.{
  pos, ◌≡◌, refl, some, none, [], ◌∷◌, true, false, ◌=ₛ◌, deadlock, done, fail, if◌then◌else◌,
  show_ℤ,
}
use bhyve_mcp.Common.Dict
use bhyve_mcp.Common.FilePath
use bhyve_mcp.Host.{
  kill, remove, vm_destroy, vm_close, wait, signal, spawn, vm_setup_memory, vm_open, vm_create,
  write_file, mkdir_all,
}
use bhyve_mcp.Config.{default_config}
use bhyve_mcp.Vm.Types.{Vm, World, running, stopped, new_manager}
use bhyve_mcp.Vm.Command.{command_args, build_bhyve_command}
use bhyve_mcp.Vm.Command.Slots.{slots, slots-command_args}
use bhyve_mcp.Vm.Lifecycle.{
  start, stop, destroy, create, get_state, get, new_vm_config, defined_vm, mem_size, config_path,
}
use bhyve_mcp.Vm.Lifecycle.Access.{
  manager_after, world_after, succeeded, with_entry, holding, IsFree,
}
use bhyve_mcp.Vm.Lifecycle.Start.{start_idle}
use bhyve_mcp.Vm.Lifecycle.Stop.{stop_running-calls, stopped_vm}
use bhyve_mcp.Vm.Lifecycle.Destroy.{destroy_idle-calls, destroyed}
use bhyve_mcp.Vm.Lifecycle.Create.{create_calls, IsRequested, create_new-calls}
use bhyve_mcp.Vm.Lifecycle.State.{get_state_lem, result_of}
use bhyve_mcp.Vm.Invariant.{WellFormed, new_manager-WellFormed, with_entry-WellFormed, Settles}
use bhyve_mcp.Vm.Refinement.{RefinesAfter}
use bhyve_mcp.Vm.Refinement.Steps.{perform-Refines}
use bhyve_mcp.Vm.Requests.{
  stop_vm, create_vm, start_vm, destroy_vm, perform, perform-Settles, perform-DestroysRunning, init,
  next, Reach-WellFormed,
}
use bhyve_mcp.Vm.Loading.{shutdown, load_all_vms, load_entries}
use bhyve_mcp.Vm.Loading.Shutdown.{shutdown_lem, any_running}
use bhyve_mcp.Vm.Loading.Startup.{load_all_vms-Extends, Extends}
use bhyve_mcp.Tests.Hosts.{willing, refusing, stocked, yaml, reading_yaml}

abbrev pub fresh : World
fresh = record { manager = new_manager default_config; history = [] }

abbrev pub web : Vm
web = defined_vm "web" (new_vm_config (new_manager default_config) "web" (pos 2) "1G")

abbrev pub running_web : Vm
running_web = record web {
  state = running;
  process = some 100;
  vmmapi_vm = some (record { ctx = some 7; name = "web" });
}

abbrev pub with_web : Vm → World
with_web v = holding "web" v fresh

web-IsFree : (v : Vm) → v.locked ≡ false → IsFree "web" v (with_web v)
unfolding new_manager
web-IsFree v l = record { mu = refl; entry = Dict.lookup-insert_self "web" v []; lock = l }

-- A machine is created, started, and stopped: the calls of the system, newest first.
lifecycle_calls :
    (elim (create willing yaml "web" (pos 2) "1G" fresh) [
      | done _ w ↦ elim (start willing "web" w) [
        | done _ v ↦ elim (stop willing "web" v) [
          | done _ u ↦ u.history
          | fail _ u ↦ []
          | deadlock ↦ []
        ]
        | fail _ v ↦ []
        | deadlock ↦ []
      ]
      | fail _ w ↦ []
      | deadlock ↦ []
    ])
    ≡ vm_close 7
      ∷ wait 100
      ∷ signal 100 15
      ∷ spawn (
          "bhyve" ∷ "-c" ∷ "2" ∷ "-m" ∷ "1G" ∷ "-H" ∷ "-w" ∷ "-u" ∷ "-s" ∷ "0,hostbridge" ∷ "-s"
          ∷ "1,lpc" ∷ "-l" ∷ "bootrom,/usr/local/share/uefi-firmware/BHYVE_UEFI.fd" ∷ "-s"
          ∷ "2,virtio-net,tap0" ∷ "web" ∷ [])
      ∷ vm_setup_memory (some 7) mem_size
      ∷ vm_open "web"
      ∷ vm_create "web"
      ∷ write_file "/usr/local/etc/bhyve-mcp/vms/web.yaml" "name: web"
      ∷ mkdir_all "/usr/local/etc/bhyve-mcp/vms"
      ∷ []
unfolding create start stop get new_manager default_config build_bhyve_command ◌=ₛ◌ Dict.lookup
    Dict.insert Dict.modify FilePath.dir show_ℤ
lifecycle_calls = refl

start_idle_example :
    (manager_after (start willing "web" (with_web web))
      ≡ some (record (with_entry "web" running_web (with_web web).manager) {
        vnc_port_next = pos 5900;
      }))
    × (succeeded (start willing "web" (with_web web)) ≡ true)
unfolding new_manager default_config new_vm_config
start_idle_example = start_idle willing "web" web (with_web web) (web-IsFree web refl) refl

stop_running-calls_example :
    (world_after (stop refusing "web" (with_web running_web))
      ≡ some (record {
        manager = with_entry "web" (stopped_vm false running_web) (with_web running_web).manager;
        history = kill 100 ∷ signal 100 15 ∷ [];
      }))
    × (succeeded (stop refusing "web" (with_web running_web)) ≡ false)
stop_running-calls_example =
    stop_running-calls refusing "web" running_web (with_web running_web)
      (web-IsFree running_web refl) refl

destroy_idle-calls_example :
    (world_after (destroy willing "web" (with_web web))
      ≡ some (record {
        manager = destroyed true "web" web (with_web web).manager;
        history = remove (config_path "web" fresh) ∷ vm_destroy 7 ∷ vm_open "web" ∷ [];
      }))
    × (succeeded (destroy willing "web" (with_web web)) ≡ true)
unfolding new_manager
destroy_idle-calls_example =
    destroy_idle-calls willing "web" web (with_web web) (web-IsFree web refl) refl

create_new-calls_example :
    (v : Vm) × IsRequested "web" (pos 2) "1G" default_config v
    × (let (b, past) =
          create_calls willing "web"
            (config_path "web" fresh)
            []
            (yaml.marshal_vm_config v.config) in
        (world_after (create willing yaml "web" (pos 2) "1G" fresh)
          ≡ some (record {
            manager = if b then with_entry "web" v fresh.manager else fresh.manager;
            history = past;
          }))
        × (succeeded (create willing yaml "web" (pos 2) "1G" fresh) ≡ b))
unfolding new_manager Dict.lookup
create_new-calls_example = create_new-calls willing yaml "web" fresh refl (pos 2) "1G" refl

get_state_lem_example :
    (manager_after (get_state refusing "web" (with_web running_web))
      ≡ some (
          with_entry "web"
            (record running_web { state = stopped; vmmapi_vm = none })
            (with_web running_web).manager))
    × (result_of (get_state refusing "web" (with_web running_web)) ≡ some stopped)
get_state_lem_example =
    get_state_lem refusing "web" running_web (with_web running_web) (web-IsFree running_web refl)

slots-command_args_example : slots (command_args default_config web (pos 5900)) ≡ 0 ∷ 1 ∷ 2 ∷ []
unfolding new_vm_config default_config
slots-command_args_example = slots-command_args default_config web (pos 5900)

pub running_web-WellFormed : WellFormed (with_web running_web).manager
unfolding new_manager
running_web-WellFormed =
    with_entry-WellFormed "web" running_web fresh.manager (new_manager-WellFormed default_config)
      (record {
        lock = refl;
        named = refl;
        rest = refl;
        handle = refl;
        process = λ _. refl;
        attached = λ _. refl;
      })

perform-Settles_example : Settles (perform willing yaml (start_vm "web") (with_web running_web))
perform-Settles_example =
    perform-Settles willing yaml (start_vm "web") (with_web running_web) running_web-WellFormed
      (λ d. d)

perform-DestroysRunning_example :
    perform willing yaml (destroy_vm "web") (with_web running_web) ≡ deadlock
unfolding new_manager
perform-DestroysRunning_example =
    perform-DestroysRunning willing yaml (destroy_vm "web") (with_web running_web)
      running_web-WellFormed (running_web, Dict.lookup-insert_self "web" running_web [], refl)

booted : World
unfolding load_all_vms new_manager default_config
booted = elim (load_all_vms willing yaml fresh) [ done _ w ↦ w | fail _ w ↦ w | deadlock ↦ fresh ]

created : World
unfolding booted create new_manager default_config new_vm_config ◌=ₛ◌ Dict.lookup Dict.insert
    FilePath.dir
created = elim (create willing yaml "web" (pos 2) "1G" booted) [
  | done _ w ↦ w
  | fail _ w ↦ w
  | deadlock ↦ booted
]

Reach-WellFormed_example : WellFormed created.manager
unfolding booted created perform load_all_vms new_manager load_entries
Reach-WellFormed_example =
    Reach-WellFormed willing yaml {cfg = default_config}
      (next (create_vm "web" (pos 2) "1G") created (init [] booted refl) refl)

shutdown_lem_example : shutdown willing (with_web running_web) ≡ (
    if any_running (with_web running_web).manager.vms
    then deadlock
    else done tt (with_web running_web))
unfolding new_manager
shutdown_lem_example = shutdown_lem willing (with_web running_web) refl

load_all_vms-Extends_example :
    Extends
      (with_web running_web).manager
      (load_all_vms stocked reading_yaml (with_web running_web))
load_all_vms-Extends_example =
    load_all_vms-Extends stocked reading_yaml (with_web running_web) running_web-WellFormed

perform-Refines_example :
    RefinesAfter
      (stop_vm "web")
      (with_web running_web)
      (perform refusing yaml (stop_vm "web") (with_web running_web))
perform-Refines_example =
    perform-Refines refusing yaml (stop_vm "web") (with_web running_web) running_web-WellFormed
      (λ d. d)
