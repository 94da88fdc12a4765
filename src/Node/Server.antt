-- ===== src/Node/Server.antt =====
-- pkg/service/node/tcp_server.go: what a node does with a message, and what it answers. The handlers
-- ask the node's service (service_state.go), whose answers are given; the calls that change something
-- are listed.
pub mod Denials
use scheduler.Prelude.{
  ℕ, Bool, true, false, ◌&&◌, not, Option, none, some, List, [], ◌∷◌, ◌++◌, if◌then◌else◌,
}
use scheduler.Prelude.Result.{Text, text_eq, is_empty, codes}
use scheduler.Models.{Job}
use scheduler.AsyncTask.{AsyncTask, TaskState, not_started}
use scheduler.Node.Stream.{Bytes, Stream, got, failed}
use scheduler.Node.Payloads.{
  NodeAuth, FetchRemoteData, QuotaAllocation, LocalQuotaRequest, LocalQuotaResponse,
  AccountExhaustion, JobUpdateRequest, Codec, NodeTcpPayload, node_auth, string, fetch_remote_data,
  async_task, quota_allocation, local_quota_request, local_quota_response, account_exhaustion,
  job_update_request, write_to, decode,
}

pub record Secrets : Type 0 where
  pub auth_username : Text
  pub auth_password : Text

pub data NodeCall : Type 0 where
  stop_jobs start_jobs : NodeCall
  return_uncommitted_logs : Text → NodeCall
  update_local_quota_allocations : List (ℕ × ℕ) → NodeCall
  update_jobs_status_to_inactive : ℕ → NodeCall
  update_job_on_leader : Job → NodeCall

-- `request_id` is a fresh id; an error of the service is its text. `task_of` is what the fetch of a
-- task by its request ends with, after any wait.
pub record Server : Type 0 where
  pub secrets : Secrets
  pub has_node_service : Bool
  pub request_id : Text
  pub local_quotas : List (ℕ × ℕ)
  pub quota_error : Option Text
  pub status_error : Option Text
  pub update_error : Option Text
  pub task_of : Text → AsyncTask

abbrev pub incorrect_credentials : Text
incorrect_credentials = codes "incorrect_credentials"

abbrev pub no_task : AsyncTask
no_task = record {
  id = 0;
  request_id = [];
  input = [];
  output = [];
  service = [];
  state = not_started;
  date_created = 0;
  account_id = 0;
  date_modified = 0;
}

-- The test that every handler makes.
abbrev pub authorised : Secrets → Text → Text → Bool
authorised s username password =
    text_eq username s.auth_username && text_eq password s.auth_password

abbrev pub Handled : Type 0
Handled = List NodeCall × NodeTcpPayload

abbrev pub denied : Handled
denied = ([], string incorrect_credentials)

abbrev pub quota_reply : Option Text → Text
quota_reply none = codes "quota_allocation_received"
quota_reply (some e) = codes "error: failed to update quota allocations"

abbrev pub status_reply : Option Text → Text
status_reply none = codes "account_exhaustion_processed"
status_reply (some e) = codes "error: failed to update jobs status: " ++ e

abbrev pub update_reply : Option Text → Text
update_reply none = codes "job_updated"
update_reply (some e) = codes "error: failed to update job: " ++ e

abbrev pub answered : Handled → List NodeCall × Option NodeTcpPayload
answered (calls, p) = (calls, some p)

abbrev pub written : Codec → List NodeCall × Option NodeTcpPayload → List NodeCall × Bytes
written c (calls, none) = (calls, [])
written c (calls, some p) = elim (write_to c p) [ none ↦ (calls, []) | some b ↦ (calls, b) ]

module _ (v : Server) where
  unfoldable pub handle_node_auth_request : NodeAuth → Handled
  handle_node_auth_request x =
      if authorised v.secrets x.auth_username x.auth_password
      then ([], string (codes "connected"))
      else denied

  unfoldable pub begin_uncommitted_logs_fetch_request : FetchRemoteData → Handled
  begin_uncommitted_logs_fetch_request x =
      if authorised v.secrets x.auth_username x.auth_password
      then (return_uncommitted_logs v.request_id ∷ [], string v.request_id)
      else denied

  unfoldable pub handle_stop_jobs_command : FetchRemoteData → Handled
  handle_stop_jobs_command x =
      if authorised v.secrets x.auth_username x.auth_password
      then (stop_jobs ∷ [], string (codes "stopped"))
      else denied

  unfoldable pub handle_start_jobs_command : FetchRemoteData → Handled
  handle_start_jobs_command x =
      if authorised v.secrets x.auth_username x.auth_password
      then (start_jobs ∷ [], string (codes "started"))
      else denied

  unfoldable pub handle_uncommitted_logs_fetch_request : FetchRemoteData → Handled
  handle_uncommitted_logs_fetch_request x =
      if authorised v.secrets x.auth_username x.auth_password
      then ([], async_task (v.task_of x.request_id))
      else ([], async_task no_task)

  unfoldable pub handle_quota_allocation : QuotaAllocation → Handled
  handle_quota_allocation x =
      if authorised v.secrets x.auth_username x.auth_password
      then (if v.has_node_service
          then (
            update_local_quota_allocations x.account_allocations ∷ [],
            string (quota_reply v.quota_error),
          )
          else ([], string (codes "error: node service not available")))
      else denied

  -- Wrong credentials are answered by no quotas.
  unfoldable pub handle_local_quota_request : LocalQuotaRequest → Handled
  handle_local_quota_request x = (
    [],
    local_quota_response (record {
      account_allocations =
          if authorised v.secrets x.auth_username x.auth_password && v.has_node_service
          then v.local_quotas
          else [];
    }),
  )

  unfoldable pub handle_account_exhaustion : AccountExhaustion → Handled
  handle_account_exhaustion x =
      if authorised v.secrets x.auth_username x.auth_password
      then (if v.has_node_service
          then (
            update_jobs_status_to_inactive x.account_id ∷ [],
            string (status_reply v.status_error),
          )
          else ([], string (codes "error: node service not available")))
      else denied

  unfoldable pub handle_job_update_request : JobUpdateRequest → Handled
  handle_job_update_request x =
      if authorised v.secrets x.auth_username x.auth_password
      then (if v.has_node_service
          then (update_job_on_leader x.job ∷ [], string (update_reply v.update_error))
          else ([], string (codes "error: node service not available")))
      else denied

  -- The commands of `FetchRemoteData`, by its request id.
  unfoldable pub handle_fetch_remote_data : FetchRemoteData → Handled
  unfolding handle_stop_jobs_command handle_start_jobs_command begin_uncommitted_logs_fetch_request
      handle_uncommitted_logs_fetch_request
  handle_fetch_remote_data x =
      if text_eq x.request_id (codes "stop_jobs")
      then handle_stop_jobs_command x
      else if text_eq x.request_id (codes "start_jobs")
      then handle_start_jobs_command x
      else if is_empty x.request_id
      then begin_uncommitted_logs_fetch_request x
      else handle_uncommitted_logs_fetch_request x

  -- The tests on the type of a payload in `SetupTCPListener`; other payloads get no answer.
  abbrev pub handle : NodeTcpPayload → List NodeCall × Option NodeTcpPayload
  handle (node_auth x) = answered (handle_node_auth_request x)
  handle (fetch_remote_data x) = answered (handle_fetch_remote_data x)
  handle (quota_allocation x) = answered (handle_quota_allocation x)
  handle (local_quota_request x) = answered (handle_local_quota_request x)
  handle (account_exhaustion x) = answered (handle_account_exhaustion x)
  handle (job_update_request x) = answered (handle_job_update_request x)
  handle (string t) = ([], none)
  handle (async_task t) = ([], none)
  handle (local_quota_response x) = ([], none)

  -- One connection: a message, and the bytes of the answer.
  unfoldable pub serve : Codec → Stream → List NodeCall × Bytes
  unfolding decode handle_node_auth_request handle_fetch_remote_data handle_quota_allocation
      handle_local_quota_request handle_account_exhaustion handle_job_update_request
  serve c s = elim (decode c s) [ failed e ↦ ([], []) | got p ↦ written c (handle p) ]
