-- ===== src/Config/Accepted.antt =====
-- Which configurations Load accepts, and which ones the worker starts with.
use text.Mathlib.Text.{◌==◌ as str_eq}
use text.Mathlib.TextEquality.{eq_iff}
use mathlib.Core.Option.{some-injective}
use proxmox_manager.Base.{
  String, ◌≡◌, ◌≢◌, ◌↔◌, refl, sym, ap, ◌∙◌, subst, inl, inr, ◌||◌, Option, none, some, List, [],
  ◌∷◌, All, Bool-cases, if◌then◌else◌, failure, Result, ok, err,
}
use proxmox_manager.Config.{
  ProxmoxClusterConfig, Config, Host, apply_env_overrides, validate_clusters, validate, if_valid,
  parsed, file_read, load, worker_cluster, validate_worker_config,
}

-- what has to be given
pub record IsComplete (c : Config) : Type 0 where
  pub listen : c.server.listen ≢ ""
  pub dsn_file : c.database.dsn_file ≢ ""
  pub jwt_public_key_file : c.auth.jwt_public_key_file ≢ ""
  pub clusters : All (λ cl. (cl.id ≢ "") × (cl.base_url ≢ "")) c.clusters

-- what the worker needs besides
pub record IsForWorker (c : Config) : Type 0 where
  pub cluster : ProxmoxClusterConfig
  pub others : List ProxmoxClusterConfig
  pub registered : c.clusters ≡ cluster ∷ others
  pub token_secret_file : cluster.token_secret_file ≢ ""
  pub hmac_key_file : c.identity.hmac_key_file ≢ ""
  pub network_segment_id : c.provisioning.defaults.network_segment_id ≢ ""

-- A text that has to be given, before the other conditions.
required :
    (s : String) (rest : Result (Unit {0}))
    → ((if str_eq s "" then err failure else rest) ≡ ok tt) ↔ ((s ≢ "") × (rest ≡ ok tt))
required s rest = elim (Bool-cases (str_eq s "")) [
  | inl e ↦ (λ h. cc (rw e at h), λ h. absurd (h.0 ((eq_iff s "").0 e)))
  | inr e ↦ (λ h. (λ p. cc (e, (eq_iff s "").1 p), rw e at h), λ h. rw e h.1)
]

either_required :
    (s t : String) (rest : Result (Unit {0}))
    → ((if str_eq s "" || str_eq t "" then err failure else rest) ≡ ok tt)
      ↔ (((s ≢ "") × (t ≢ "")) × (rest ≡ ok tt))
either_required s t rest = elim (Bool-cases (str_eq s "")) [
  | inl e ↦ (λ h. cc (rw e at h), λ h. absurd (h.0.0 ((eq_iff s "").0 e)))
  | inr e ↦ rw e (
    (λ h. ((λ p. cc (e, (eq_iff s "").1 p), ((required t rest).0 h).0), ((required t rest).0 h).1)),
    (λ h. (required t rest).1 (h.0.1, h.1)),
  )
]

validate_clusters_lem :
    (cs : List ProxmoxClusterConfig)
    → (validate_clusters cs ≡ ok tt) ↔ All (λ cl. (cl.id ≢ "") × (cl.base_url ≢ "")) cs
unfolding validate_clusters
validate_clusters_lem [] = (λ h. tt, λ h. refl)
validate_clusters_lem (cl ∷ cs) =
    let step = either_required cl.id cl.base_url (validate_clusters cs) in
    (
      λ h. let (named, rest) = step.0 h in (named, (validate_clusters_lem cs).0 rest),
      λ h. step.1 (h.0, (validate_clusters_lem cs).1 h.1),
    )

validate_lem : (c : Config) → (validate c ≡ ok tt) ↔ IsComplete c
unfolding validate
validate_lem c =
    let rest = validate_clusters c.clusters in
    (
      λ h.
          let (l, h1) = (required c.server.listen _).0 h in
          let (d, h2) = (required c.database.dsn_file _).0 h1 in
          let (j, h3) = (required c.auth.jwt_public_key_file rest).0 h2 in
          record {
            listen = l;
            dsn_file = d;
            jwt_public_key_file = j;
            clusters = (validate_clusters_lem c.clusters).0 h3;
          },
      λ v. (required c.server.listen _).1 (
        v.listen,
        (required c.database.dsn_file _).1 (
          v.dsn_file,
          (required c.auth.jwt_public_key_file rest).1
              (v.jwt_public_key_file, (validate_clusters_lem c.clusters).1 v.clusters),
        ),
      ),
    )

ok-injective : {cfg cfg' : Config} → Path (Result Config) (ok cfg) (ok cfg') → cfg ≡ cfg'
ok-injective e = cc

if_valid_lem :
    (written cfg : Config) (r : Result (Unit {0}))
    → (if_valid written r ≡ ok cfg) ↔ ((cfg ≡ written) × (r ≡ ok tt))
if_valid_lem written cfg (ok tt) = (λ h. (sym (ok-injective h), refl), λ h. ap ok (sym h.0))
if_valid_lem written cfg (err e) = (λ h. cc, λ h. cc h.1)

parsed_lem :
    (host : Host) (o : Option Config) (cfg : Config)
    → (parsed host o ≡ ok cfg) ↔ (
        (written : Config) × (o ≡ some written)
        × (cfg ≡ apply_env_overrides host written)
        × IsComplete cfg)
parsed_lem host none cfg = (λ h. cc, λ h. cc h.1)
parsed_lem host (some written) cfg =
    let step =
      if_valid_lem (apply_env_overrides host written) cfg
        (validate (apply_env_overrides host written)) in
    (
      λ h.
          let (same, valid) = step.0 h in
          (
            written,
            refl,
            same,
            rw same ((validate_lem (apply_env_overrides host written)).0 valid),
          ),
      λ h.
          let (w, e, same, whole) = h in
          let same' : cfg ≡ apply_env_overrides host written =
            same ∙ ap (apply_env_overrides host) (sym (some-injective written w e)) in
          step.1 (
            same',
            (validate_lem (apply_env_overrides host written)).1 (subst IsComplete same' whole),
          ),
    )

-- Load gives a configuration exactly where the file can be read and parsed, the configuration is the
-- parsed one with the overrides of the environment, and with these it is complete: the listening
-- address, the files of the database and of the JWT key are given, and so are the id and the URL of
-- each cluster.
pub load_lem :
    (host : Host) (path : String) (cfg : Config)
    → (load host path ≡ ok cfg) ↔ (
        (raw : String) × (written : Config) × (host.read_file path ≡ some raw)
        × (host.unmarshal raw ≡ some written)
        × (cfg ≡ apply_env_overrides host written)
        × IsComplete cfg)
unfolding load
load_lem host path cfg = read (host.read_file path)
  where
    read :
        (o : Option String)
        → (file_read host o ≡ ok cfg) ↔ (
            (raw : String) × (written : Config) × (o ≡ some raw)
            × (host.unmarshal raw ≡ some written)
            × (cfg ≡ apply_env_overrides host written)
            × IsComplete cfg)
    read none = (λ h. cc, λ h. cc h.2)
    read (some raw) =
        let step = parsed_lem host (host.unmarshal raw) cfg in
        (
          λ h. let (written, e, same, whole) = step.0 h in (raw, written, refl, e, same, whole),
          λ h.
              let (x, w, e, u, same, whole) = h in
              step.1 (w, ap host.unmarshal (some-injective raw x e) ∙ u, same, whole),
        )

worker_cluster_lem :
    (c : Config) (cs : List ProxmoxClusterConfig)
    → c.clusters ≡ cs
    → (worker_cluster c cs ≡ ok tt) ↔ IsForWorker c
worker_cluster_lem c [] none_there = (λ h. cc, λ v. cc (none_there, v.registered))
worker_cluster_lem c (cl ∷ cs) there = (
  λ h.
      let (token, h1) = (required cl.token_secret_file _).0 h in
      let (key, h2) = (required c.identity.hmac_key_file _).0 h1 in
      let (segment, h3) = (required c.provisioning.defaults.network_segment_id _).0 h2 in
      record {
        cluster = cl;
        others = cs;
        registered = there;
        token_secret_file = token;
        hmac_key_file = key;
        network_segment_id = segment;
      },
  λ v. (required cl.token_secret_file _).1 (
    λ p. v.token_secret_file (cc (there, v.registered, p)),
    (required c.identity.hmac_key_file _).1 (
      v.hmac_key_file,
      (required c.provisioning.defaults.network_segment_id _).1 (v.network_segment_id, refl),
    ),
  ),
)

-- The worker starts with a configuration exactly where it has a first cluster with a token's file, an
-- HMAC key's file and a network segment.
pub validate_worker_config_lem : (c : Config) → (validate_worker_config c ≡ ok tt) ↔ IsForWorker c
unfolding validate_worker_config
validate_worker_config_lem c = worker_cluster_lem c c.clusters refl
