-- ===== src/Examples/Watch.antt =====
-- Findings and alerts at the sample.
use proxmox_manager.Base.{
  ◌+◌, ◌≡◌, none, some, List, [], ◌∷◌, length, ok, true, ◌&&◌, ◌||◌, not, Option, all, any,
}
use proxmox_manager.Domain.{IdentityObservation, is_pass, Alert, AlertStatus}
use proxmox_manager.Store.{Db}
use proxmox_manager.Ipam.Scanner.{scan}
use proxmox_manager.Ipam.Scanner.Again.{scan_lem}
use proxmox_manager.Validation.Checks.{block, failed_with}
use proxmox_manager.Validation.Rules.{evaluate_identity_and_network}
use proxmox_manager.Validation.Drift.{
  drift_input, DriftScannerInput, DriftFinding, scan_instance, Found, IsLast, is_stable,
  scan_instance_lem,
}
use proxmox_manager.Examples.Outside.{text, facts}
use proxmox_manager.Examples.Sample.{sample}

abbrev warning : Alert
warning = record {
  id = 3;
  fingerprint = "provisioning_backlog";
  status = AlertStatus.acknowledged;
  severity = "warning";
  resource_type = "system";
  resource_id = "provisioning_backlog";
  created_at = 10;
  updated_at = 10;
  acknowledged_at = some 20;
  acknowledged_by = some 4;
  acknowledged_note = none;
  version = 2;
}

abbrev warned : Db
warned = record sample { alerts = warning ∷ [] }

scan_lem_example :
    (length (scan sample).1.findings ≡ length sample.findings + (scan sample).0)
    × (scan (scan sample).1 ≡ (0, (scan sample).1))
scan_lem_example = scan_lem sample

abbrev scanned : DriftScannerInput
scanned = record {
  instance_id = 5;
  expected_hostname = "web-1";
  expected_mac_addresses = [];
  expected_ipv4 = "10.0.0.10";
  expected_gateway_v4 = "10.0.0.1";
  require_single_nic = true;
  require_single_default_route = true;
  deny_ipv6_default_route = true;
}

abbrev observed : Db
observed = record sample {
  observations =
      record {
        instance_id = 5;
        generation = 1;
        machine_id_digest = "0";
        ssh_host_fingerprint = "";
        observed_at = 40;
      }
      ∷ [];
}

scan_instance_lem_example :
    let checks = evaluate_identity_and_network text (drift_input text (λ s. s) scanned facts) in
    (last : Option IdentityObservation) × IsLast 5 observed.observations last
    × (fs : List DriftFinding) × (scan_instance text (λ s. s) scanned observed (ok facts) ≡ ok fs)
    × Found fs
        (is_stable last facts.machine_id && all (λ c. is_pass c.result) checks)
        (not (is_stable last facts.machine_id) || any (failed_with block) checks)
scan_instance_lem_example = scan_instance_lem text (λ s. s) scanned observed facts
