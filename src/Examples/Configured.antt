-- ===== src/Examples/Configured.antt =====
-- A configuration with an override of the environment.
use text.Mathlib.Text.{◌==◌ as str_eq}
use proxmox_manager.Base.{
  ◌≡◌, ◌↔◌, String, true, false, Option, none, some, [], ◌∷◌, ok, if◌then◌else◌,
}
use proxmox_manager.Config.{Config, ProxmoxClusterConfig, Host, apply_env_overrides, load}
use proxmox_manager.Config.Accepted.{IsComplete, load_lem}

abbrev lab : ProxmoxClusterConfig
lab = record {
  id = "lab";
  base_url = "https://pve:8006/api2/json";
  token_id = "vmf";
  token_secret_file = "/run/token";
  ca_file = "";
  request_timeout = 0;
  task_timeout = 0;
  insecure_skip_verify = false;
}

abbrev configured : Config
configured = record {
  server = record { listen = ":8080"; public_base_url = ""; shutdown_timeout = 0 };
  database = record {
    dsn_file = "/run/dsn";
    max_open_conns = 4;
    max_idle_conns = 2;
    statement_timeout = 0;
  };
  auth = record { issuer = ""; jwt_public_key_file = "/run/jwt"; required_audience = "" };
  clusters = lab ∷ [];
  pgw = record { base_url = ""; token_file = ""; request_timeout = 0; activation_timeout = 0 };
  provisioning = record {
    default_clone_mode = "full";
    worker_concurrency = 2;
    per_pve_node_concurrency = 1;
    per_storage_concurrency = 1;
    job_lease = 60;
    job_heartbeat = 20;
    max_attempts = 3;
    defaults = record {
      network_segment_id = "1";
      egress_policy_id = "";
      pool = "";
      bridge = "vmbr0";
      ip_config0 = "ip=dhcp";
      cores = 1;
      memory_mb = 512;
      reservation_ttl = 60;
    };
  };
  guest = record {
    qga_timeout = 0;
    ssh_fallback = false;
    ssh_user = "";
    ssh_private_key_file = "";
    cloud_init_timeout = 0;
  };
  identity = record {
    hmac_key_file = "/run/hmac";
    duplicate_policy = record { active_fleet = "block"; retired_history = "warn" };
  };
  network = record {
    ipv6_policy = "deny";
    require_single_nic = true;
    require_single_default_route = true;
  };
  observability = record { metrics_listen = ""; log_format = "json"; log_level = "info" };
}

abbrev overrides : String → Option String
overrides name = if str_eq name "VMF_SERVER_LISTEN" then some ":9090" else none

abbrev host : Host
host = record {
  read_file = λ _. some "yaml";
  unmarshal = λ _. some configured;
  lookup_env = overrides;
}

load_lem_example : (load host "local.yaml" ≡ ok (apply_env_overrides host configured)) ↔ (
    (raw : String) × (written : Config) × (host.read_file "local.yaml" ≡ some raw)
    × (host.unmarshal raw ≡ some written)
    × (apply_env_overrides host configured ≡ apply_env_overrides host written)
    × IsComplete (apply_env_overrides host configured))
load_lem_example = load_lem host "local.yaml" (apply_env_overrides host configured)
