-- ===== src/Examples/Addresses.antt =====
-- The addresses at the sample.
use proxmox_manager.Base.{
  Bool, true, ◌↔◌, ◌≡◌, ◌≤◌, In, refl, ◌⊎◌, ok, err, capacity_exhausted, All, Unique, some, find,
  any, map, length, ◌++◌, update_where, select_where, ◌==◌,
}
use proxmox_manager.Domain.{IpAllocation, is_expired_reservation}
use proxmox_manager.Ipam
use proxmox_manager.Ipam.{reapable, reaped, release_event, has_id}
use proxmox_manager.Ipam.Reserve.{allocation_key, IsAvailable, reservation, reserve_next_free_lem}
use proxmox_manager.Ipam.Reaper.{ready-loses_address}
use proxmox_manager.Ipam.Reaper.Abandoned.{
  IsAbandoned, taken_back, event_of, release_expired_reservations_lem,
}
use proxmox_manager.Ipam.Lifecycle.{Action, apply, AllWellFormed, apply-AllWellFormed}
use proxmox_manager.Examples.Sample.{sample, ready_instance, expired_address}

sample-Unique : Unique allocation_key sample.allocations
sample-Unique = ((refl, tt), (tt, tt))

reserve_next_free_lem_example :
    (Ipam.reserve_next_free 1 6 30 sample ≡ (err capacity_exhausted, sample))
      × All (λ a. ¬ IsAvailable 1 a) sample.allocations
    ⊎ ((c : IpAllocation) × In c sample.allocations
        × IsAvailable 1 c
        × All (λ a. IsAvailable 1 a → c.address ≤ a.address) sample.allocations
        × (let row = reservation 6 130 c in
            Ipam.reserve_next_free 1 6 30 sample ≡ (
              ok row,
              record sample {
                allocations = update_where (λ a. a.id == c.id) (λ _. row) sample.allocations;
              },
            )))
reserve_next_free_lem_example = reserve_next_free_lem 1 6 30 sample sample-Unique

release_expired_reservations_lem_example :
    let (r, db') = Ipam.release_expired_reservations sample in
    (abandoned : IpAllocation → Bool) × ((a : IpAllocation)
      → (abandoned a ≡ true) ↔ IsAbandoned 100 sample.jobs a)
    × (db'.allocations ≡ update_where abandoned (taken_back 100) sample.allocations)
    × (db'.audit
        ≡ sample.audit
          ++ map (λ a. event_of a a.instance_id) (select_where abandoned sample.allocations))
    × (r ≡ ok (length (select_where abandoned sample.allocations)))
release_expired_reservations_lem_example = release_expired_reservations_lem sample sample-Unique

ready-loses_address_example :
    let db' = (Ipam.release_expired_reservations sample).1 in
    (find (has_id 2) db'.allocations ≡ some (reaped 100 expired_address))
    × (find (λ i. i.id == 5) db'.instances ≡ some ready_instance)
ready-loses_address_example =
    ready-loses_address sample expired_address ready_instance sample-Unique (unfold find in refl)
      (unfold find in refl) refl refl (unfold is_expired_reservation in refl) (unfold any in refl)

apply-AllWellFormed_example : AllWellFormed (apply (Action.quarantine 2) sample)
apply-AllWellFormed_example =
    apply-AllWellFormed (Action.quarantine 2) sample
      (record { owner = refl; reused = λ e. cc }, (record { owner = refl; reused = λ e. cc }, tt))
