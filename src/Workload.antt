-- ===== src/Workload.antt =====
-- internal/workload/sample.go: a service that is installed in the guest by its agent. The other
-- packages that it uses (encoding/json, crypto/sha256, path, strconv) are parameters.
pub mod Install
pub mod Remove
use text.Mathlib.Text.{◌==◌ as str_eq}
use Prim.Native.Char.{code}
use Prim.Native.String
use Prim.Native.String.{◌++◌ as append}
use proxmox_manager.Base.{
  ℕ, ◌*◌, String, Bool, true, false, ◌&&◌, ◌||◌, not, Option, some, none, List, [], ◌∷◌, leb, ltb,
  ◌==◌, if◌then◌else◌,
}
use proxmox_manager.Proxmox.Session.{
  Cluster, Got, got, failed, spinning, other, or_failed, ExecResult, Session, pure, lift, attempt,
  ◌>>=◌, ◌>>◌,
}
use proxmox_manager.Proxmox.Messages.{VmRef, second}
use proxmox_manager.Proxmox.Guest.{wait_exec, write_guest_file}

abbrev pub sample_marker_path : String
sample_marker_path = "/etc/vmf-workload/install.json"

-- with Artifact, whose content is a text of bytes
pub record SampleSpec : Type 0 where
  pub name : String
  pub service_name : String
  pub install_path : String
  pub artifact_content : String
  pub artifact_sha256 : String

pub record InstallMarker : Type 0 where
  pub name : String
  pub service_name : String
  pub install_path : String
  pub sha256 : String

pub record Tools : Type 0 where
  pub read_spec : String → Option SampleSpec
  pub read_marker : String → Option InstallMarker
  pub marshal : InstallMarker → String
  -- sha256.Sum256 with hex.EncodeToString
  pub digest : String → String
  -- path.Dir
  pub dir : String → String
  pub itoa : ℕ → String
  -- the adapter's execTimeout
  pub exec_timeout : ℕ

pub record ValidationReport : Type 0 where
  pub valid : Bool
  pub reasons : List String

pub record HealthReport : Type 0 where
  pub healthy : Bool
  pub service_state : String
  pub detail : String

abbrev pub timeout_of : Tools → ℕ
timeout_of tools = if ltb 0 tools.exec_timeout then tools.exec_timeout else 30 * second

unfoldable pub build_systemd_unit : SampleSpec → String
build_systemd_unit spec =
    append (append "[Unit]\nDescription=vm-factory sample workload: " spec.name) (
      append
        (append "\nAfter=network.target\n\n[Service]\nType=simple\nExecStart=" spec.install_path)
        "\nRestart=on-failure\n\n[Install]\nWantedBy=multi-user.target\n")

abbrev pub unit_path : String → String
unit_path service_name = append (append "/etc/systemd/system/" service_name) ".service"

abbrev is_newline : ℕ → Bool
is_newline c = c == 10 || c == 13

unfoldable pub trim_trailing_newline : String → String
trim_trailing_newline String.[] = ""
trim_trailing_newline (String.◌∷◌ c s) =
    let rest = trim_trailing_newline s in
    if is_newline (code c) && str_eq rest "" then "" else String.◌∷◌ c rest

abbrev pub same_version : Got InstallMarker → SampleSpec → Bool
same_version (got m) spec =
    str_eq m.sha256 spec.artifact_sha256 && str_eq m.service_name spec.service_name
same_version _ spec = false

abbrev pub marker_of : SampleSpec → InstallMarker
marker_of spec = record {
  name = spec.name;
  service_name = spec.service_name;
  install_path = spec.install_path;
  sha256 = spec.artifact_sha256;
}

-- the text of the error is left out of the reason
abbrev report : Got InstallMarker → ValidationReport
report (got m) =
    if str_eq m.sha256 "" || str_eq m.service_name ""
    then record { valid = false; reasons = "install marker thieu sha256/service_name" ∷ [] }
    else record { valid = true; reasons = [] }
report _ = record { valid = false; reasons = "read install marker" ∷ [] }

-- the output, or else the error output, with no newline at its end
unfoldable pub service_state_of : ExecResult → String
unfolding trim_trailing_newline
service_state_of result =
    let state = trim_trailing_newline result.stdout in
    if str_eq state "" then trim_trailing_newline result.stderr else state

module _ (c : Cluster) (tools : Tools) (vm : VmRef) where
  unfoldable pub must_exec : List String → Session (Unit {0})
  must_exec command = do
    result ← wait_exec c vm command (timeout_of tools)
    lift (if result.exit_code == 0 then got tt else failed other)

  unfoldable pub read_marker : Session InstallMarker
  read_marker = do
    result ← wait_exec c vm ("cat" ∷ sample_marker_path ∷ []) (timeout_of tools)
    lift (
        if result.exit_code == 0 then or_failed (tools.read_marker result.stdout) else failed other)

  unfoldable pub make_dirs : List String → Session (Unit {0})
  unfolding must_exec
  make_dirs [] = pure tt
  make_dirs (d ∷ dirs) = must_exec ("mkdir" ∷ "-p" ∷ d ∷ []) >> make_dirs dirs

  -- what Install does where the version is not there
  unfoldable pub install_files : SampleSpec → Session (Unit {0})
  unfolding make_dirs build_systemd_unit
  install_files spec = do
    make_dirs (tools.dir spec.install_path ∷ tools.dir sample_marker_path ∷ [])
    write_guest_file c vm spec.install_path spec.artifact_content
    must_exec ("chmod" ∷ "+x" ∷ spec.install_path ∷ [])
    write_guest_file c vm (unit_path spec.service_name) (build_systemd_unit spec)
    must_exec ("systemctl" ∷ "daemon-reload" ∷ [])
    must_exec ("systemctl" ∷ "enable" ∷ "--now" ∷ spec.service_name ∷ [])
    write_guest_file c vm sample_marker_path (tools.marshal (marker_of spec))

  abbrev pub unless_installed : SampleSpec → Got InstallMarker → Session (Unit {0})
  unless_installed spec existing =
      if same_version existing spec then pure tt else install_files spec

  unfoldable pub install : String → Session (Unit {0})
  unfolding read_marker install_files
  install spec_json = do
    spec ← lift (or_failed (tools.read_spec spec_json))
    lift (
        if str_eq (tools.digest spec.artifact_content) spec.artifact_sha256
        then got tt
        else failed other)
    existing ← attempt read_marker
    unless_installed spec existing

  -- its error is always nil
  unfoldable pub validate : Session ValidationReport
  unfolding read_marker
  validate = do existing ← attempt read_marker; pure (report existing)

  -- Sprintf("exit_code=%d")
  unfoldable pub health : Session HealthReport
  unfolding read_marker service_state_of
  health = do
    marker ← read_marker
    result ←
        wait_exec c vm ("systemctl" ∷ "is-active" ∷ marker.service_name ∷ []) (timeout_of tools)
    pure (record {
      healthy = result.exit_code == 0 && str_eq (service_state_of result) "active";
      service_state = service_state_of result;
      detail = append "exit_code=" (tools.itoa result.exit_code);
    })

  unfoldable pub restart : Session (Unit {0})
  unfolding read_marker must_exec
  restart = do marker ← read_marker; must_exec ("systemctl" ∷ "restart" ∷ marker.service_name ∷ [])

  unfoldable pub collect_bounded_logs : ℕ → Session String
  unfolding read_marker
  collect_bounded_logs max_lines = do
    marker ← read_marker
    let lines = if max_lines == 0 then 200 else max_lines
    result ←
        wait_exec c vm
          ("journalctl" ∷ "-u" ∷ marker.service_name ∷ "-n" ∷ tools.itoa lines ∷ "--no-pager" ∷ [])
          (timeout_of tools)
    pure result.stdout

  abbrev pub removed : Got InstallMarker → Session (Unit {0})
  removed (got marker) = do
    attempt (must_exec ("systemctl" ∷ "disable" ∷ "--now" ∷ marker.service_name ∷ []))
    attempt (must_exec ("rm" ∷ "-f" ∷ unit_path marker.service_name ∷ []))
    attempt (must_exec ("rm" ∷ "-f" ∷ marker.install_path ∷ []))
    attempt (must_exec ("rm" ∷ "-f" ∷ sample_marker_path ∷ []))
    must_exec ("systemctl" ∷ "daemon-reload" ∷ [])
  removed _ = pure tt

  -- Remove: where the marker cannot be read there is nothing to remove
  unfoldable pub remove : Session (Unit {0})
  unfolding read_marker must_exec
  remove = do existing ← attempt read_marker; removed existing
