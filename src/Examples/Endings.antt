-- ===== src/Examples/Endings.antt =====
-- The ends of a provisioning at the sample: READY, quarantine, and the delay of a retry.
use proxmox_manager.Base.{◌≡◌, Rowwise, ◌≤◌, refl, some, true, arith}
use proxmox_manager.Engine.Workload.{applying_workload_handler}
use proxmox_manager.Engine.Workload.Ready.{ReadyGate, applying_workload_handler_lem}
use proxmox_manager.Engine.Quarantine.{execute}
use proxmox_manager.Engine.Quarantine.Kept.{deletions, execute_keeps}
use proxmox_manager.Ipam.Rows.{SetAside}
use proxmox_manager.Worker.{backoff_delay}
use proxmox_manager.Worker.Backoff.{backoff-bounds}
use proxmox_manager.Examples.Sample.{starting_instance}
use proxmox_manager.Examples.Outside.{outside, adapter, world, bound, cloning_job}

applying_workload_handler_lem_example :
    ReadyGate outside bound
      (λ _. some adapter)
      "noop"
      10
      world
      (applying_workload_handler outside (λ _. some adapter) "noop" 10 bound world)
applying_workload_handler_lem_example =
    applying_workload_handler_lem outside bound (λ _. some adapter) "noop" 10 world

execute_keeps_example :
    let w' = (execute outside starting_instance cloning_job true world).1 in
    (deletions w'.calls ≡ deletions world.calls)
    × Rowwise
        (SetAside cloning_job.checkpoint_data.ip_allocation_id)
        world.db.allocations
        w'.db.allocations
execute_keeps_example = execute_keeps outside starting_instance cloning_job true world

backoff-bounds_example :
    (30000000000 ≤ backoff_delay (λ n. n) (λ _. 0) 2)
    × (backoff_delay (λ n. n) (λ _. 0) 2 ≤ 37500000000)
backoff-bounds_example =
    backoff-bounds (λ n. n) (λ _. 0) (λ n h. refl) (λ n h. omega arith) 1 (omega arith)
