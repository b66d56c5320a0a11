-- ===== src/Examples/Cluster.antt =====
-- A cluster and a guest that answer every call, and what they answer where a number is taken.
use proxmox_manager.Base.{◌+◌, ◌/◌, ◌*◌, ◌≡◌, refl, String, false, none, some, List, [], ◌∷◌}
use proxmox_manager.Proxmox.Session.{
  Method, post, Endpoint, clone_path, Request, Answer, response, Codec, Cluster, Net, changes, send,
}
use proxmox_manager.Proxmox.Client.{do_request, request_of, read_answer}
use proxmox_manager.Proxmox.Messages.{VmRef, TaskRef, clone_params, second, parse_flexible_int}
use proxmox_manager.Proxmox.Adapter.{allocate_next_vmid, clone, wait_for_task}
use proxmox_manager.Proxmox.Waits.{Waited, wait_for_task_lem}
use proxmox_manager.Workload.{SampleSpec, Tools, install, remove, read_marker}
use proxmox_manager.Workload.Install.{Installed, install_lem}
use proxmox_manager.Workload.Remove.{Removed, remove_lem}
use proxmox_manager.Templates.Canary.{CanaryOptions, CanaryTools, canary_clone, validate}
use proxmox_manager.Templates.Canary.Cleanup.{
  CleanedUp, stop_request, delete_request, validate_lem, validate-removes_other,
}
use proxmox_manager.Guest.{fingerprints_of}
use proxmox_manager.Guest.Fingerprints.{IsEntry, listed, fingerprints_of-listed}

abbrev codec : Codec
codec = record {
  envelope = λ s. some s;
  error_body = λ _. none;
  with_details = λ message _. message;
  to_lower = λ s. s;
  text = λ _. some "UPID:pve1";
  number = λ _. some 105;
  atoi = λ _. none;
  task_status = λ _. some ("stopped", "OK");
  vm_status = λ _. none;
  net0 = λ _. some "virtio=BC:24:11:00:00:01,bridge=vmbr0";
  pid = λ _. some 7;
  exec_status = λ _. some (1, 0, "active", "");
}

-- a clone is refused
abbrev answer_to : Method → Endpoint → Answer
answer_to post (clone_path _ _) = response 500 "VM 105 already exists"
answer_to _ _ = response 200 "data"

abbrev taken : List Request → Answer
taken [] = response 200 "data"
taken (r ∷ _) = answer_to r.method r.path

abbrev cluster : Cluster
cluster = record {
  answer = taken;
  took = λ _. 1000;
  late = λ _. 0;
  cancelled = λ _. false;
  codec = codec;
}

abbrev idle : Net
idle = record { requests = []; now = 0 }

abbrev vm : VmRef
vm = record { node = "pve1"; vmid = 105 }

abbrev task : TaskRef
task = record { node = "pve1"; upid = "UPID:pve1" }

abbrev spec : SampleSpec
spec = record {
  name = "web";
  service_name = "web";
  install_path = "/opt/web";
  artifact_content = "#!/bin/sh";
  artifact_sha256 = "#!/bin/sh";
}

abbrev tools : Tools
tools = record {
  read_spec = λ _. some spec;
  read_marker = λ _. none;
  marshal = λ _. "{}";
  digest = λ s. s;
  dir = λ _. "/opt";
  itoa = λ _. "n";
  exec_timeout = 0;
}

abbrev canary_tools : CanaryTools
canary_tools = record { itoa = λ _. "n"; read_facts = λ _. none; fact_script = "" }

abbrev options : CanaryOptions
options = record {
  node = "pve1";
  source_vmid = 9000;
  storage = "local";
  bridge = "vmbr0";
  pool = "";
  boot_timeout = 0;
}

wait_for_task_lem_example :
    Waited
      (0 + 30 * second)
      (30 * second / (10 * second) + 7)
      idle
      (wait_for_task cluster task (30 * second) idle)
wait_for_task_lem_example = wait_for_task_lem cluster task (30 * second) idle

install_lem_example : Installed cluster tools vm spec idle (install cluster tools vm "{}" idle)
install_lem_example = install_lem cluster tools vm "{}" idle spec refl

remove_lem_example :
    Removed cluster tools vm
      (read_marker cluster tools vm idle).0
      idle
      (remove cluster tools vm idle)
remove_lem_example = remove_lem cluster tools vm idle

validate_lem_example :
    CleanedUp cluster canary_tools options
      (allocate_next_vmid cluster idle)
      idle
      (validate cluster canary_tools options idle)
validate_lem_example = validate_lem cluster canary_tools options idle

abbrev allocated : Net
allocated = (allocate_next_vmid cluster idle).1

validate-removes_other_example :
    changes (validate cluster canary_tools options idle).1.requests
    ≡ delete_request vm
      ∷ stop_request vm
      ∷ request_of post
          (clone_path "pve1" 9000)
          (some (clone_params (canary_clone cluster canary_tools options 105)))
      ∷ []
unfolding allocate_next_vmid clone do_request send read_answer parse_flexible_int changes
validate-removes_other_example =
    validate-removes_other cluster canary_tools options idle 105 allocated refl tt

abbrev keys : List (String × String)
keys = ("ed", "S:1") ∷ ("rsa", "S:2") ∷ []

ed_IsEntry : IsEntry ("ed", "S:1")
ed_IsEntry = record {
  name_colon = (refl, (refl, tt));
  name_comma = (refl, (refl, tt));
  value_comma = (refl, (refl, (refl, tt)));
  name_given = refl;
  value_given = refl;
}

rsa_IsEntry : IsEntry ("rsa", "S:2")
rsa_IsEntry = record {
  name_colon = (refl, (refl, (refl, tt)));
  name_comma = (refl, (refl, (refl, tt)));
  value_comma = (refl, (refl, (refl, tt)));
  name_given = refl;
  value_given = refl;
}

fingerprints_of-listed_example : fingerprints_of (listed keys) ≡ keys
fingerprints_of-listed_example =
    fingerprints_of-listed keys (ed_IsEntry, (rsa_IsEntry, tt)) (tt, ((refl, tt), tt))
