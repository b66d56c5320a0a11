-- ===== src/Proxmox/Client.antt =====
-- internal/proxmox/errors.go and client.go: a request, and what its error is. The header of the token
-- and the metrics are left out.
use text.Mathlib.Text.{◌==◌ as str_eq}
use proxmox_manager.Base.{
  ℕ, String, ◌&&◌, ◌||◌, Option, none, some, leb, ◌==◌, [], if◌then◌else◌, contains,
}
use proxmox_manager.Proxmox.Session.{
  Method, get, post, delete, Params, Endpoint, Request, Code, auth_failed, vmid_conflict,
  bridge_not_found, storage_capacity, vm_locked, template_invalid, guest_agent_unavailable,
  unknown_code, PveError, pve, other, Answer, unreachable, response, Codec, Cluster, Got, failed,
  or_failed, Session, send, lift, ◌>>=◌,
}

-- the switch of classifyError, on the body in lower case
unfoldable pub code_of : ℕ → String → Code
unfolding contains
code_of status lower =
    if status == 401 || status == 403
    then auth_failed
    else if contains lower "already exists"
    then vmid_conflict
    else if contains lower "bridge"
        && (contains lower "does not exist" || contains lower "not found")
    then bridge_not_found
    else if contains lower "no space left"
        || contains lower "not enough space"
        || contains lower "insufficient"
    then storage_capacity
    else if contains lower "locked"
    then vm_locked
    else if contains lower "unable to parse" && contains lower "config"
    then template_invalid
    else unknown_code

unfoldable pub classify_error : Codec → ℕ → String → PveError
unfolding code_of
classify_error codec status body = record {
  code = code_of status (codec.to_lower body);
  message = body;
  http_status = status;
}

abbrev pub guest_agent_error : String → PveError
guest_agent_error body = record {
  code = guest_agent_unavailable;
  message = body;
  http_status = 500;
}

abbrev pub message_of : Codec → String → Option (String × Option String) → String
message_of codec raw none = raw
message_of codec raw (some (message, some details)) = codec.with_details message details
message_of codec raw (some (message, none)) = if str_eq message "" then raw else message

unfoldable pub extract_error_message : Codec → String → String
extract_error_message codec raw = message_of codec raw (codec.error_body raw)

-- GET and DELETE take their parameters in the query, and have no body
abbrev pub query_of : Method → Option Params → Params
query_of get (some params) = params
query_of delete (some params) = params
query_of _ _ = []

abbrev pub body_of : Method → Option Params → Option Params
body_of post params = params
body_of _ _ = none

abbrev pub request_of : Method → Endpoint → Option Params → Request
request_of method path params = record {
  method = method;
  path = path;
  query = query_of method params;
  body = body_of method params;
}

unfoldable pub read_answer : Codec → Answer → Got String
unfolding classify_error extract_error_message
read_answer codec unreachable = failed other
read_answer codec (response status raw) =
    if leb 300 status
    then failed (pve (classify_error codec status (extract_error_message codec raw)))
    else or_failed (codec.envelope raw)

-- do, with doRequest
unfoldable pub do_request : Cluster → Method → Endpoint → Option Params → Session String
unfolding send read_answer
do_request c method path params = do
  answer ← send c (request_of method path params)
  lift (read_answer c.codec answer)
