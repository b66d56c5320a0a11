-- ===== src/Workload/Remove.antt =====
-- Remove of internal/workload/sample.go.
use proxmox_manager.Base.{List, [], ◌∷◌, ◌≡◌, ◌∙◌, ap, refl}
use proxmox_manager.Proxmox.Session.{Request, Cluster, Net, Got, got, failed, spinning, changes}
use proxmox_manager.Proxmox.Messages.{VmRef}
use proxmox_manager.Proxmox.Waits.{Ends}
use proxmox_manager.Proxmox.Effects.{Does, onto}
use proxmox_manager.Proxmox.Commands.{exec_request}
use proxmox_manager.Workload.{
  Tools, InstallMarker, sample_marker_path, unit_path, must_exec, read_marker, remove, removed,
}
use proxmox_manager.Workload.Install.{must_exec-Does, read_marker-Does, marker_request}

onto_changes :
    {A : Type 0} {r : Request} {before : Net} {result : Got A × Net} {ch : List Request}
    → Does r before result
    → changes before.requests ≡ ch
    → changes result.1.requests ≡ r ∷ ch
onto_changes {r = r} d e = d.change ∙ ap (λ rs. r ∷ rs) e

module _ (c : Cluster) (tools : Tools) (vm : VmRef) where
  -- the commands for what a marker names, in their order
  abbrev pub removal : InstallMarker → List Request
  removal m =
      exec_request vm ("systemctl" ∷ "disable" ∷ "--now" ∷ m.service_name ∷ [])
      ∷ exec_request vm ("rm" ∷ "-f" ∷ unit_path m.service_name ∷ [])
      ∷ exec_request vm ("rm" ∷ "-f" ∷ m.install_path ∷ [])
      ∷ exec_request vm ("rm" ∷ "-f" ∷ sample_marker_path ∷ [])
      ∷ exec_request vm ("systemctl" ∷ "daemon-reload" ∷ [])
      ∷ []

  -- How Remove ends, by what came of reading the marker.
  abbrev pub Removed : Got InstallMarker → Net → Got (Unit {0}) × Net → Type 0
  Removed (got m) net result =
      Ends result.0
      × (changes result.1.requests
          ≡ onto (marker_request c tools vm ∷ removal m) (changes net.requests))
  Removed _ net result =
      (result.0 ≡ got tt)
      × (changes result.1.requests ≡ marker_request c tools vm ∷ changes net.requests)

  removed-Removed :
      (r : Got InstallMarker) (net looked : Net)
      → changes looked.requests ≡ marker_request c tools vm ∷ changes net.requests
      → Removed r net (removed c tools vm r looked)
  removed-Removed (got m) net looked e =
      let d1 =
        must_exec-Does c tools vm ("systemctl" ∷ "disable" ∷ "--now" ∷ m.service_name ∷ [])
          looked in
      let n1 =
        (must_exec c tools vm ("systemctl" ∷ "disable" ∷ "--now" ∷ m.service_name ∷ []) looked).1 in
      let d2 = must_exec-Does c tools vm ("rm" ∷ "-f" ∷ unit_path m.service_name ∷ []) n1 in
      let n2 = (must_exec c tools vm ("rm" ∷ "-f" ∷ unit_path m.service_name ∷ []) n1).1 in
      let d3 = must_exec-Does c tools vm ("rm" ∷ "-f" ∷ m.install_path ∷ []) n2 in
      let n3 = (must_exec c tools vm ("rm" ∷ "-f" ∷ m.install_path ∷ []) n2).1 in
      let d4 = must_exec-Does c tools vm ("rm" ∷ "-f" ∷ sample_marker_path ∷ []) n3 in
      let n4 = (must_exec c tools vm ("rm" ∷ "-f" ∷ sample_marker_path ∷ []) n3).1 in
      let d5 = must_exec-Does c tools vm ("systemctl" ∷ "daemon-reload" ∷ []) n4 in
      (
        d5.ended,
        onto_changes d5 (onto_changes d4 (onto_changes d3 (onto_changes d2 (onto_changes d1 e)))),
      )
  removed-Removed (failed _) net looked e = (refl, e)
  removed-Removed spinning net looked e = (refl, e)

  -- Remove ends. Where the marker was read, it runs the five commands of the removal, whether the first
  -- four succeed or not. Where it could not be read, whatever the error, it reports success and
  -- removes nothing.
  pub remove_lem : (net : Net) → Removed (read_marker c tools vm net).0 net (remove c tools vm net)
  unfolding remove
  remove_lem net =
      removed-Removed (read_marker c tools vm net).0 net (read_marker c tools vm net).1
        (read_marker-Does c tools vm net).change
