-- ===== src/Templates/Canary/Verdict.antt =====
-- The verdict on a canary: evaluateCanaryFacts of internal/template/canary.go.
use text.Mathlib.Text.{◌==◌ as str_eq}
use text.Mathlib.TextEquality.{eq_iff}
use Prim.Native.String
use proxmox_manager.Base.{
  ◌≤◌, Bool, true, false, ◌&&◌, not, List, [], ◌∷◌, ◌≡◌, ◌≢◌, ◌↔◌, ◌==◌, ==_iff, leb, leb→le, arith,
  refl,
}
use proxmox_manager.Domain.{pass}
use proxmox_manager.Validation.Conditions.{differs, and_iff}
use proxmox_manager.Templates.Canary.{
  CanaryFacts, CanaryCheck, CanaryTools, evaluate_canary_facts, canary_result, pass_fail,
  is_lower_hex,
}

-- what the facts of a good template's clone are
pub record IsAdmissible (f : CanaryFacts) : Type 0 where
  pub machine_id_length : String.len f.machine_id ≡ 32
  pub machine_id_hex : is_lower_hex f.machine_id ≡ true
  pub ssh_keys : 1 ≤ f.ssh_host_key_count
  pub cloud_init : f.cloud_init_instance_id ≢ ""
  pub one_nic : f.nic_count ≡ 1
  pub one_route_v4 : f.default_route_v4_count ≡ 1
  pub no_route_v6 : f.default_route_v6_count ≡ 0
  pub agent_active : f.qga_status ≡ "active"
  pub synchronized : f.time_synchronized ≡ "yes"

canary_result-pass :
    (passed : Bool) (check : CanaryCheck) (checks : List CanaryCheck)
    → check.result ≡ pass_fail passed
    → (canary_result (check ∷ checks) ≡ pass) ↔ ((passed ≡ true) × (canary_result checks ≡ pass))
unfolding canary_result pass_fail
canary_result-pass true check checks e = rw e (λ h. (refl, h), λ h. h.1)
canary_result-pass false check checks e = rw e (λ h. cc, λ h. cc h.0)

empty-pass : canary_result [] ≡ pass
unfolding canary_result
empty-pass = refl

-- The verdict on a canary is PASS exactly where its facts are admissible: the machine id is 32
-- lower-case hexadecimal digits, there is an SSH host key, the cloud-init id is not empty, there are
-- one card, one IPv4 default route and no IPv6 default route, the agent is active and the time is
-- synchronized.
pub evaluate_canary_facts_lem :
    (tools : CanaryTools) (f : CanaryFacts)
    → (canary_result (evaluate_canary_facts tools f) ≡ pass) ↔ IsAdmissible f
unfolding evaluate_canary_facts
evaluate_canary_facts_lem tools f = (
  λ h.
      let (id, h1) =
        (canary_result-pass (String.len f.machine_id == 32 && is_lower_hex f.machine_id) _ _ refl).0
          h in
      let (ssh, h2) = (canary_result-pass (leb 1 f.ssh_host_key_count) _ _ refl).0 h1 in
      let (ci, h3) =
        (canary_result-pass (not (str_eq f.cloud_init_instance_id "")) _ _ refl).0 h2 in
      let (nic, h4) = (canary_result-pass (f.nic_count == 1) _ _ refl).0 h3 in
      let (v4, h5) = (canary_result-pass (f.default_route_v4_count == 1) _ _ refl).0 h4 in
      let (v6, h6) = (canary_result-pass (f.default_route_v6_count == 0) _ _ refl).0 h5 in
      let (qga, h7) = (canary_result-pass (str_eq f.qga_status "active") _ _ refl).0 h6 in
      let (time, h8) = (canary_result-pass (str_eq f.time_synchronized "yes") _ _ refl).0 h7 in
      let (length, hex) = (and_iff _ _).0 id in
      record {
        machine_id_length = (==_iff _ _).0 length;
        machine_id_hex = hex;
        ssh_keys = leb→le _ _ ssh;
        cloud_init = (differs _ _).0 ci;
        one_nic = (==_iff _ _).0 nic;
        one_route_v4 = (==_iff _ _).0 v4;
        no_route_v6 = (==_iff _ _).0 v6;
        agent_active = (eq_iff _ _).0 qga;
        synchronized = (eq_iff _ _).0 time;
      },
  λ a.
      (canary_result-pass (String.len f.machine_id == 32 && is_lower_hex f.machine_id) _ _ refl).1 (
        (and_iff _ _).1 ((==_iff _ _).1 a.machine_id_length, a.machine_id_hex),
        (canary_result-pass (leb 1 f.ssh_host_key_count) _ _ refl).1 (
          ground (arith, a.ssh_keys),
          (canary_result-pass (not (str_eq f.cloud_init_instance_id "")) _ _ refl).1 (
            (differs _ _).1 a.cloud_init,
            (canary_result-pass (f.nic_count == 1) _ _ refl).1 (
              (==_iff _ _).1 a.one_nic,
              (canary_result-pass (f.default_route_v4_count == 1) _ _ refl).1 (
                (==_iff _ _).1 a.one_route_v4,
                (canary_result-pass (f.default_route_v6_count == 0) _ _ refl).1 (
                  (==_iff _ _).1 a.no_route_v6,
                  (canary_result-pass (str_eq f.qga_status "active") _ _ refl).1 (
                    (eq_iff _ _).1 a.agent_active,
                    (canary_result-pass (str_eq f.time_synchronized "yes") _ _ refl).1
                        ((eq_iff _ _).1 a.synchronized, empty-pass),
                  ),
                ),
              ),
            ),
          ),
        ),
      ),
)
