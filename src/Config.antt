-- ===== src/Config.antt =====
-- internal/config/config.go, and what cmd/worker/main.go asks of a configuration before it starts. The
-- files, the YAML package and the environment are parameters; a duration that is not positive is 0.
pub mod Accepted
use text.Mathlib.Text.{◌==◌ as str_eq}
use proxmox_manager.Base.{
  ℕ, ◌/◌, ◌*◌, ◌==◌, String, Bool, ◌||◌, Option, none, some, List, [], ◌∷◌, if◌then◌else◌, failure,
  Result, ok, err,
}
use proxmox_manager.Proxmox.Messages.{second}

pub record ServerConfig : Type 0 where
  pub listen : String
  pub public_base_url : String
  pub shutdown_timeout : ℕ

pub record DatabaseConfig : Type 0 where
  pub dsn_file : String
  pub max_open_conns : ℕ
  pub max_idle_conns : ℕ
  pub statement_timeout : ℕ

pub record AuthConfig : Type 0 where
  pub issuer : String
  pub jwt_public_key_file : String
  pub required_audience : String

pub record ProxmoxClusterConfig : Type 0 where
  pub id : String
  pub base_url : String
  pub token_id : String
  pub token_secret_file : String
  pub ca_file : String
  pub request_timeout : ℕ
  pub task_timeout : ℕ
  pub insecure_skip_verify : Bool

pub record PgwConfig : Type 0 where
  pub base_url : String
  pub token_file : String
  pub request_timeout : ℕ
  pub activation_timeout : ℕ

pub record ProvisioningDefaultsConfig : Type 0 where
  pub network_segment_id : String
  pub egress_policy_id : String
  pub pool : String
  pub bridge : String
  pub ip_config0 : String
  pub cores : ℕ
  pub memory_mb : ℕ
  pub reservation_ttl : ℕ

pub record ProvisioningConfig : Type 0 where
  pub default_clone_mode : String
  pub worker_concurrency : ℕ
  pub per_pve_node_concurrency : ℕ
  pub per_storage_concurrency : ℕ
  pub job_lease : ℕ
  pub job_heartbeat : ℕ
  pub max_attempts : ℕ
  pub defaults : ProvisioningDefaultsConfig

pub record GuestConfig : Type 0 where
  pub qga_timeout : ℕ
  pub ssh_fallback : Bool
  pub ssh_user : String
  pub ssh_private_key_file : String
  pub cloud_init_timeout : ℕ

pub record DuplicatePolicyConfig : Type 0 where
  pub active_fleet : String
  pub retired_history : String

pub record IdentityConfig : Type 0 where
  pub hmac_key_file : String
  pub duplicate_policy : DuplicatePolicyConfig

pub record NetworkConfig : Type 0 where
  pub ipv6_policy : String
  pub require_single_nic : Bool
  pub require_single_default_route : Bool

pub record ObservabilityConfig : Type 0 where
  pub metrics_listen : String
  pub log_format : String
  pub log_level : String

-- Config, with the clusters of ProxmoxConfig
pub record Config : Type 0 where
  pub server : ServerConfig
  pub database : DatabaseConfig
  pub auth : AuthConfig
  pub clusters : List ProxmoxClusterConfig
  pub pgw : PgwConfig
  pub provisioning : ProvisioningConfig
  pub guest : GuestConfig
  pub identity : IdentityConfig
  pub network : NetworkConfig
  pub observability : ObservabilityConfig

-- os.ReadFile, yaml.Unmarshal and os.LookupEnv
pub record Host : Type 0 where
  pub read_file : String → Option String
  pub unmarshal : String → Option Config
  pub lookup_env : String → Option String

abbrev overridden : Option String → String → String
overridden none old = old
overridden (some v) old = v

unfoldable pub apply_env_overrides : Host → Config → Config
apply_env_overrides host cfg = record cfg {
  server = record cfg.server {
    listen = overridden (host.lookup_env "VMF_SERVER_LISTEN") cfg.server.listen;
  };
  database = record cfg.database {
    dsn_file = overridden (host.lookup_env "VMF_DATABASE_DSN_FILE") cfg.database.dsn_file;
  };
  observability = record cfg.observability {
    log_level =
        overridden (host.lookup_env "VMF_OBSERVABILITY_LOG_LEVEL") cfg.observability.log_level;
    metrics_listen =
        overridden (host.lookup_env "VMF_OBSERVABILITY_METRICS_LISTEN")
          cfg.observability.metrics_listen;
  };
}

-- the loop over the clusters
unfoldable pub validate_clusters : List ProxmoxClusterConfig → Result (Unit {0})
validate_clusters [] = ok tt
validate_clusters (cl ∷ clusters) =
    let rest = validate_clusters clusters in
    if str_eq cl.id "" || str_eq cl.base_url "" then err failure else rest

unfoldable pub validate : Config → Result (Unit {0})
unfolding validate_clusters
validate c =
    if str_eq c.server.listen ""
    then err failure
    else if str_eq c.database.dsn_file ""
    then err failure
    else if str_eq c.auth.jwt_public_key_file ""
    then err failure
    else validate_clusters c.clusters

abbrev pub if_valid : Config → Result (Unit {0}) → Result Config
if_valid cfg (ok _) = ok cfg
if_valid cfg (err e) = err e

abbrev pub parsed : Host → Option Config → Result Config
parsed host none = err failure
parsed host (some cfg) =
    if_valid (apply_env_overrides host cfg) (validate (apply_env_overrides host cfg))

abbrev pub file_read : Host → Option String → Result Config
file_read host none = err failure
file_read host (some raw) = parsed host (host.unmarshal raw)

unfoldable pub load : Host → String → Result Config
unfolding apply_env_overrides validate
load host path = file_read host (host.read_file path)

-- validateWorkerConfig of cmd/worker/main.go
abbrev pub worker_identity : Config → Result (Unit {0})
worker_identity c =
    if str_eq c.identity.hmac_key_file ""
    then err failure
    else if str_eq c.provisioning.defaults.network_segment_id ""
    then err failure
    else ok tt

abbrev pub worker_cluster : Config → List ProxmoxClusterConfig → Result (Unit {0})
worker_cluster c [] = err failure
worker_cluster c (cl ∷ _) =
    if str_eq cl.token_secret_file "" then err failure else worker_identity c

unfoldable pub validate_worker_config : Config → Result (Unit {0})
validate_worker_config c = worker_cluster c c.clusters

-- the tests of durations and counts in its main
unfoldable pub maintenance_interval : Config → ℕ
maintenance_interval c =
    if c.provisioning.job_lease / 2 == 0 then 30 * second else c.provisioning.job_lease / 2

unfoldable pub concurrency : Config → ℕ
concurrency c =
    if c.provisioning.worker_concurrency == 0 then 1 else c.provisioning.worker_concurrency
