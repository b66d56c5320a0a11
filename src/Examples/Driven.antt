-- ===== src/Examples/Driven.antt =====
-- The worker's loop at the sample.
use proxmox_manager.Base.{◌≡◌, refl, some, find}
use proxmox_manager.Jobs
use proxmox_manager.Engine.World.{World}
use proxmox_manager.Engine.Step.{step}
use proxmox_manager.Engine.Advance.Registry.{Wiring, wire_engine}
use proxmox_manager.Engine.Advance.Refined.{Refines, wired_step_lem}
use proxmox_manager.Worker.Process.{Slot, process_job}
use proxmox_manager.Worker.Process.Settled.{Ended}
use proxmox_manager.Worker.Process.Drive.{process_job_lem}
use proxmox_manager.Examples.Outside.{outside, settings, adapter, world, cloning_job}

abbrev wiring : Wiring
wiring = record {
  outside = outside;
  segment_id = 1;
  reservation_ttl = 60;
  settings = settings;
  adapters = λ _. some adapter;
  health_polls = 2;
}

abbrev slot : Slot
slot = record {
  wiring = wiring;
  to_int64 = λ n. n;
  random = λ _. 0;
  worker = 7;
  id_text = λ _. "id";
}

wired_step_lem_example : Refines cloning_job world (step (wire_engine wiring) cloning_job world)
wired_step_lem_example = wired_step_lem wiring cloning_job world

process_job_lem_example :
    (w : World) × (process_job slot 10 cloning_job world ≡ some w) × Ended cloning_job w.db
unfolding find Jobs.holds
process_job_lem_example = process_job_lem slot cloning_job world refl refl
