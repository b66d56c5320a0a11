-- ===== src/Workload/Install.antt =====
-- Install of internal/workload/sample.go: what it changes in the guest, and in which order.
use text.Mathlib.Text.{◌==◌ as str_eq}
use text.Mathlib.TextEquality.{eq_iff}
use proxmox_manager.Base.{
  String, true, false, some, List, [], ◌∷◌, ◌++◌, map, ◌≡◌, ◌≢◌, refl, arith, ◌⊎◌, inl, inr,
  Bool-cases, if◌then◌else◌, ◌==◌,
}
use proxmox_manager.Proxmox.Session.{
  post, agent_path, Request, Cluster, Net, Got, got, failed, other, spinning, changes, lift,
  continue, or_failed, ExecResult,
}
use proxmox_manager.Proxmox.Client.{request_of}
use proxmox_manager.Proxmox.Messages.{VmRef}
use proxmox_manager.Proxmox.Guest.{file_params}
use proxmox_manager.Proxmox.Waits.{Ends}
use proxmox_manager.Proxmox.Effects.{
  Does, Ran, all_done, Ran-bind, Ran-step, Ran-last, if-Ends, or_failed-Ends, write_guest_file-Does,
}
use proxmox_manager.Proxmox.Commands.{exec_request, wait_exec-Does}
use proxmox_manager.Workload.{
  SampleSpec, InstallMarker, Tools, sample_marker_path, unit_path, marker_of, build_systemd_unit,
  same_version, must_exec, read_marker, make_dirs, install_files, install, unless_installed,
  timeout_of,
}

-- A command, and a reading of its result.
pub read-Does :
    {A : Type 0} {r : Request} {before : Net} (result : Got ExecResult × Net)
    (f : ExecResult → Got A)
    → ((e : ExecResult) → Ends (f e))
    → Does r before result
    → Does r before (continue result.0 (λ e. lift (f e)) result.1)
read-Does (got e, net) f h d = record { ended = h e; change = d.change }
read-Does (failed e, net) f h d = record { ended = tt; change = d.change }
read-Does (spinning, net) f h d = absurd d.ended

module _ (c : Cluster) (tools : Tools) (vm : VmRef) where
  pub must_exec-Does :
      (command : List String) (net : Net)
      → Does (exec_request vm command) net (must_exec c tools vm command net)
  unfolding must_exec
  must_exec-Does command net =
      read-Does _ (λ e. if e.exit_code == 0 then got tt else failed other)
        (λ e. if-Ends (e.exit_code == 0) (got tt) (failed other) tt tt)
        (wait_exec-Does c vm command (timeout_of tools) net)

  abbrev pub marker_request : Request
  marker_request = exec_request vm ("cat" ∷ sample_marker_path ∷ [])

  pub read_marker-Does : (net : Net) → Does marker_request net (read_marker c tools vm net)
  unfolding read_marker
  read_marker-Does net =
      read-Does _
        (λ e. if e.exit_code == 0 then or_failed (tools.read_marker e.stdout) else failed other)
        (λ e.
          if-Ends (e.exit_code == 0) (or_failed (tools.read_marker e.stdout)) (failed other)
            (or_failed-Ends (tools.read_marker e.stdout)) tt)
        (wait_exec-Does c vm ("cat" ∷ sample_marker_path ∷ []) (timeout_of tools) net)

  abbrev write_request : String → String → Request
  write_request path content =
      request_of post (agent_path vm.node vm.vmid "file-write") (some (file_params path content))

  abbrev made : String → Request
  made d = exec_request vm ("mkdir" ∷ "-p" ∷ d ∷ [])

  make_dirs-Ran :
      (dirs : List String) {ch : List Request} (net : Net)
      → changes net.requests ≡ ch
      → Ran (map made dirs) ch (make_dirs c tools vm dirs net)
  unfolding make_dirs
  make_dirs-Ran [] net e = all_done tt e
  make_dirs-Ran (d ∷ dirs) net e =
      Ran-step (map made dirs) _ _ e (must_exec-Does ("mkdir" ∷ "-p" ∷ d ∷ []) net)
        (λ _ net' e'. make_dirs-Ran dirs net' e')

  abbrev dirs_of : SampleSpec → List String
  dirs_of spec = tools.dir spec.install_path ∷ tools.dir sample_marker_path ∷ []

  -- what comes after the directories
  abbrev files : SampleSpec → List Request
  files spec =
      write_request spec.install_path spec.artifact_content
      ∷ exec_request vm ("chmod" ∷ "+x" ∷ spec.install_path ∷ [])
      ∷ write_request (unit_path spec.service_name) (build_systemd_unit spec)
      ∷ exec_request vm ("systemctl" ∷ "daemon-reload" ∷ [])
      ∷ exec_request vm ("systemctl" ∷ "enable" ∷ "--now" ∷ spec.service_name ∷ [])
      ∷ write_request sample_marker_path (tools.marshal (marker_of spec))
      ∷ []

  -- the changes of an installation, in their order: the marker is the last
  abbrev script : SampleSpec → List Request
  script spec = map made (dirs_of spec) ++ files spec

  install_files-Ran :
      (spec : SampleSpec) {ch : List Request} (net : Net)
      → changes net.requests ≡ ch
      → Ran (script spec) ch (install_files c tools vm spec net)
  unfolding install_files
  install_files-Ran spec {ch} net e =
      Ran-bind (map made (dirs_of spec)) (files spec) _ _ (make_dirs-Ran (dirs_of spec) net e)
        λ _ n1 e1. Ran-step _ _ _ e1 (write_guest_file-Does c vm _ _ n1) λ _ n2 e2.
          Ran-step _ _ _ e2 (must_exec-Does _ n2) λ _ n3 e3.
            Ran-step _ _ _ e3 (write_guest_file-Does c vm _ _ n3) λ _ n4 e4.
              Ran-step _ _ _ e4 (must_exec-Does _ n4) λ _ n5 e5.
                Ran-step _ _ _ e5 (must_exec-Does _ n5)
                  λ _ n6 e6. Ran-last _ e6 (write_guest_file-Does c vm _ _ n6)

  -- the marker that was read is that of the version
  abbrev pub Matches : SampleSpec → Got InstallMarker → Type 0
  Matches spec (got m) = (m.sha256 ≡ spec.artifact_sha256) × (m.service_name ≡ spec.service_name)
  Matches spec _ = ⊥

  same_version-cases :
      (spec : SampleSpec) (r : Got InstallMarker)
      → ((same_version r spec ≡ true) × Matches spec r)
        ⊎ ((same_version r spec ≡ false) × ¬ Matches spec r)
  same_version-cases spec (got m) =
      ground (arith, eq_iff m.sha256 spec.artifact_sha256, eq_iff m.service_name spec.service_name)
  same_version-cases spec (failed e) = inr (refl, λ h. h)
  same_version-cases spec spinning = inr (refl, λ h. h)

  -- How Install ends with a specification.
  abbrev pub Installed : SampleSpec → Net → Got (Unit {0}) × Net → Type 0
  Installed spec net result =
      let marker = read_marker c tools vm net in
      let looked = marker_request ∷ changes net.requests in
      ((tools.digest spec.artifact_content ≢ spec.artifact_sha256) × (result ≡ (failed other, net)))
      ⊎ ((tools.digest spec.artifact_content ≡ spec.artifact_sha256)
          × ((Matches spec marker.0 × (result.0 ≡ got tt) × (changes result.1.requests ≡ looked))
              ⊎ (¬ Matches spec marker.0 × Ran (script spec) looked result)))

  looked_at :
      (spec : SampleSpec) (net : Net)
      → let marker = read_marker c tools vm net in
        let looked = marker_request ∷ changes net.requests in
        let result = unless_installed c tools vm spec marker.0 marker.1 in
        (Matches spec marker.0 × (result.0 ≡ got tt) × (changes result.1.requests ≡ looked))
        ⊎ (¬ Matches spec marker.0 × Ran (script spec) looked result)
  looked_at spec net =
      let d = read_marker-Does net in
      elim (same_version-cases spec (read_marker c tools vm net).0) [
        | inl (e, h) ↦ rw e (inl (h, refl, d.change))
        | inr (e, h) ↦ rw e (inr (h, install_files-Ran spec _ d.change))
      ]

  -- Install with a specification that can be read: where the artifact's digest is not the one that is
  -- specified, it fails and sends nothing. Otherwise it reads the marker: where that is of the same
  -- digest and service, it succeeds and changes nothing more. Otherwise its changes are the
  -- directories, the artifact, its mode, the unit, the reloading and enabling of the service and, as
  -- the last one, the marker: all of them with success, or those up to the first that fails.
  pub install_lem :
      (spec_json : String) (net : Net) (spec : SampleSpec)
      → tools.read_spec spec_json ≡ some spec
      → Installed spec net (install c tools vm spec_json net)
  unfolding install
  install_lem spec_json net spec e =
      rw e (elim (Bool-cases (str_eq (tools.digest spec.artifact_content) spec.artifact_sha256)) [
        | inl same ↦ rw same (inr ((eq_iff _ _).0 same, looked_at spec net))
        | inr different ↦ rw different (
            inl (
              ground (arith, eq_iff (tools.digest spec.artifact_content) spec.artifact_sha256),
              refl,
            ))
      ])
