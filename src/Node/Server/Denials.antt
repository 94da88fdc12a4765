-- ===== src/Node/Server/Denials.antt =====
-- Messages without the right credentials.
use scheduler.Prelude.{
  ◌≡◌, Bool, true, false, Option, none, some, [], if◌then◌else◌, refl, Bool-cases, inl, inr,
}
use scheduler.Prelude.Result.{text_eq, is_empty, codes}
use scheduler.Node.Payloads.{
  NodeTcpPayload, node_auth, string, fetch_remote_data, async_task, quota_allocation,
  local_quota_request, local_quota_response, account_exhaustion, job_update_request,
  FetchRemoteData,
}
use scheduler.Node.Server.{
  Secrets, Server, incorrect_credentials, no_task, authorised, handle, handle_node_auth_request,
  begin_uncommitted_logs_fetch_request, handle_stop_jobs_command, handle_start_jobs_command,
  handle_uncommitted_logs_fetch_request, handle_quota_allocation, handle_local_quota_request,
  handle_account_exhaustion, handle_job_update_request, handle_fetch_remote_data,
}

-- Whether a message carries the secrets.
abbrev pub is_authorised : Secrets → NodeTcpPayload → Bool
is_authorised s (node_auth x) = authorised s x.auth_username x.auth_password
is_authorised s (fetch_remote_data x) = authorised s x.auth_username x.auth_password
is_authorised s (quota_allocation x) = authorised s x.auth_username x.auth_password
is_authorised s (local_quota_request x) = authorised s x.auth_username x.auth_password
is_authorised s (account_exhaustion x) = authorised s x.auth_username x.auth_password
is_authorised s (job_update_request x) = authorised s x.auth_username x.auth_password
is_authorised s (string t) = false
is_authorised s (async_task t) = false
is_authorised s (local_quota_response x) = false

-- The fetch of a task, and the commands.
abbrev pub names_task : FetchRemoteData → Bool
names_task x =
    if text_eq x.request_id (codes "stop_jobs")
    then false
    else if text_eq x.request_id (codes "start_jobs")
    then false
    else if is_empty x.request_id
    then false
    else true

-- What a message without the secrets is answered.
abbrev pub refusal : NodeTcpPayload → Option NodeTcpPayload
refusal (node_auth x) = some (string incorrect_credentials)
refusal (fetch_remote_data x) =
    some (if names_task x then async_task no_task else string incorrect_credentials)
refusal (quota_allocation x) = some (string incorrect_credentials)
refusal (local_quota_request x) = some (local_quota_response (record { account_allocations = [] }))
refusal (account_exhaustion x) = some (string incorrect_credentials)
refusal (job_update_request x) = some (string incorrect_credentials)
refusal (string t) = none
refusal (async_task t) = none
refusal (local_quota_response x) = none

fetch_denied :
    (v : Server) (x : FetchRemoteData)
    → authorised v.secrets x.auth_username x.auth_password ≡ false
    → handle_fetch_remote_data v x
      ≡ ([], if names_task x then async_task no_task else string incorrect_credentials)
unfolding handle_fetch_remote_data
fetch_denied v x h = elim (Bool-cases (text_eq x.request_id (codes "stop_jobs"))) [
  | inl a ↦ rw (a, h)
  | inr a ↦ elim (Bool-cases (text_eq x.request_id (codes "start_jobs"))) [
    | inl b ↦ rw (a, b, h)
    | inr b ↦ elim (Bool-cases (is_empty x.request_id)) [
      | inl e ↦ rw (a, b, e, h)
      | inr e ↦ rw (a, b, e, h)
    ]
  ]
]

-- A message that does not carry the server's secrets changes nothing, whatever its type and whatever
-- the state of the node, and its answer tells nothing of the node.
pub handle_denied :
    (v : Server) (p : NodeTcpPayload)
    → is_authorised v.secrets p ≡ false
    → handle v p ≡ ([], refusal p)
unfolding handle_node_auth_request begin_uncommitted_logs_fetch_request handle_stop_jobs_command
    handle_start_jobs_command handle_uncommitted_logs_fetch_request handle_quota_allocation
    handle_local_quota_request handle_account_exhaustion handle_job_update_request
    handle_fetch_remote_data
handle_denied v (node_auth x) h = rw h
handle_denied v (string t) h = refl
handle_denied v (fetch_remote_data x) h = rw (fetch_denied v x h)
handle_denied v (async_task t) h = refl
handle_denied v (quota_allocation x) h = rw h
handle_denied v (local_quota_request x) h = rw h
handle_denied v (local_quota_response x) h = refl
handle_denied v (account_exhaustion x) h = rw h
handle_denied v (job_update_request x) h = rw h
