-- ===== src/Node/Payloads.antt =====
-- The payloads of pkg/models with their `WriteTo` and `ReadFrom`, and `decode` of
-- pkg/service/node/tcp_client.go. A payload is written as one byte for its type, four for its size,
-- and its bytes. The counts that the methods return, which no caller uses, are left out.
pub mod Frames
pub mod RoundTrip
use scheduler.Prelude.{
  ℕ, ◌%◌, Bool, true, false, ◌&&◌, not, Option, none, some, List, [], ◌∷◌, ◌++◌, length, ltb,
  if◌then◌else◌,
}
use scheduler.Prelude.Result.{Text, text_eq}
use scheduler.Models.{Job}
use scheduler.AsyncTask.{AsyncTask, TaskState}
use scheduler.Node.Stream.{
  Bytes, Stream, Wired, got, failed, ◌>>=◌, ◌>>◌, guard, unknown_type, invalid_type, too_big,
  malformed, read_full, read, big_endian, from_big_endian, fill,
}

pub record NodeAuth : Type 0 where
  pub auth_username : Text
  pub auth_password : Text

pub record FetchRemoteData : Type 0 where
  pub phase : Text
  pub auth_username : Text
  pub auth_password : Text
  pub request_id : Text

pub record QuotaAllocation : Type 0 where
  pub auth_username : Text
  pub auth_password : Text
  pub account_allocations : List (ℕ × ℕ)

pub record LocalQuotaRequest : Type 0 where
  pub auth_username : Text
  pub auth_password : Text

pub record LocalQuotaResponse : Type 0 where
  pub account_allocations : List (ℕ × ℕ)

pub record AccountExhaustion : Type 0 where
  pub auth_username : Text
  pub auth_password : Text
  pub account_id : ℕ

pub record JobUpdateRequest : Type 0 where
  pub auth_username : Text
  pub auth_password : Text
  pub job : Job

-- `protobuffs.AsyncTask` and `protobuffs.JobUpdateRequestPayload`, which differ from the payloads.
pub record TaskMessage : Type 0 where
  pub id : ℕ
  pub request_id : Text
  pub input : Text
  pub output : Text
  pub service : Text
  pub state : TaskState
  pub date_created : ℕ

pub record JobUpdateMessage : Type 0 where
  pub auth_username : Text
  pub auth_password : Text
  pub job_data : Bytes

-- What Protocol Buffers and JSON make of a value; `none` is an error.
pub record Format (A : Type 0) : Type 0 where
  pub marshal : A → Option Bytes
  pub unmarshal : Bytes → Option A

pub record Codec : Type 0 where
  pub node_auth : Format NodeAuth
  pub fetch_remote_data : Format FetchRemoteData
  pub async_task : Format TaskMessage
  pub quota_allocation : Format QuotaAllocation
  pub local_quota_request : Format LocalQuotaRequest
  pub local_quota_response : Format LocalQuotaResponse
  pub account_exhaustion : Format AccountExhaustion
  pub job_update_request : Format JobUpdateMessage
  pub job : Format Job

pub data NodeTcpPayload : Type 0 where
  node_auth : NodeAuth → NodeTcpPayload
  string : Text → NodeTcpPayload
  fetch_remote_data : FetchRemoteData → NodeTcpPayload
  async_task : AsyncTask → NodeTcpPayload
  quota_allocation : QuotaAllocation → NodeTcpPayload
  local_quota_request : LocalQuotaRequest → NodeTcpPayload
  local_quota_response : LocalQuotaResponse → NodeTcpPayload
  account_exhaustion : AccountExhaustion → NodeTcpPayload
  job_update_request : JobUpdateRequest → NodeTcpPayload

-- `none` is `log.Fatalln`.
abbrev pub write_frame : ℕ → Option Bytes → Option Bytes
write_frame tag none = none
write_frame tag (some body) = some (tag ∷ big_endian (length body % 4294967296) ++ body)

-- What a `ReadFrom` makes its payload from.
unfoldable pub read_frame : Bool → ℕ → Stream → Wired Bytes
read_frame limited tag s = do
  (typ, s1) ← read_full false 1 s
  guard (text_eq typ (tag ∷ [])) invalid_type
  (word, s2) ← read_full false 4 s1
  guard (not (limited && ltb 10485760 (from_big_endian word))) too_big
  (bytes, s3) ← read (from_big_endian word) s2
  got (fill (from_big_endian word) bytes)

abbrev pub parsed : {A : Type 0} → (A → NodeTcpPayload) → Option A → Wired NodeTcpPayload
parsed f none = failed malformed
parsed f (some a) = got (f a)

abbrev pub write_string : Text → Option Bytes
write_string t = write_frame 2 (some t)

-- A size without a limit.
abbrev pub read_string : Stream → Wired NodeTcpPayload
read_string s = do b ← read_frame false 2 s; got (string b)

abbrev pub task_message : AsyncTask → TaskMessage
task_message t = record {
  id = t.id;
  request_id = t.request_id;
  input = t.input;
  output = t.output;
  service = t.service;
  state = t.state;
  date_created = t.date_created;
}

-- The account and the time of the last change are not sent.
abbrev pub task_of_message : TaskMessage → AsyncTask
task_of_message m = record {
  id = m.id;
  request_id = m.request_id;
  input = m.input;
  output = m.output;
  service = m.service;
  state = m.state;
  date_created = m.date_created;
  account_id = 0;
  date_modified = 0;
}

module _ (c : Codec) where
  abbrev pub write_node_auth : NodeAuth → Option Bytes
  write_node_auth x = write_frame 1 (c.node_auth.marshal x)

  abbrev pub read_node_auth : Stream → Wired NodeTcpPayload
  read_node_auth s = do b ← read_frame true 1 s; parsed node_auth (c.node_auth.unmarshal b)

  abbrev pub write_fetch_remote_data : FetchRemoteData → Option Bytes
  write_fetch_remote_data x = write_frame 3 (c.fetch_remote_data.marshal x)

  abbrev pub read_fetch_remote_data : Stream → Wired NodeTcpPayload
  read_fetch_remote_data s = do
    b ← read_frame true 3 s
    parsed fetch_remote_data (c.fetch_remote_data.unmarshal b)

  abbrev pub write_async_task : AsyncTask → Option Bytes
  write_async_task t = write_frame 4 (c.async_task.marshal (task_message t))

  abbrev pub read_async_task : Stream → Wired NodeTcpPayload
  read_async_task s = do
    b ← read_frame true 4 s
    parsed (λ m. async_task (task_of_message m)) (c.async_task.unmarshal b)

  abbrev pub write_quota_allocation : QuotaAllocation → Option Bytes
  write_quota_allocation x = write_frame 5 (c.quota_allocation.marshal x)

  abbrev pub read_quota_allocation : Stream → Wired NodeTcpPayload
  read_quota_allocation s = do
    b ← read_frame true 5 s
    parsed quota_allocation (c.quota_allocation.unmarshal b)

  abbrev pub write_local_quota_request : LocalQuotaRequest → Option Bytes
  write_local_quota_request x = write_frame 6 (c.local_quota_request.marshal x)

  abbrev pub read_local_quota_request : Stream → Wired NodeTcpPayload
  read_local_quota_request s = do
    b ← read_frame true 6 s
    parsed local_quota_request (c.local_quota_request.unmarshal b)

  abbrev pub write_local_quota_response : LocalQuotaResponse → Option Bytes
  write_local_quota_response x = write_frame 7 (c.local_quota_response.marshal x)

  abbrev pub read_local_quota_response : Stream → Wired NodeTcpPayload
  read_local_quota_response s = do
    b ← read_frame true 7 s
    parsed local_quota_response (c.local_quota_response.unmarshal b)

  abbrev pub write_account_exhaustion : AccountExhaustion → Option Bytes
  write_account_exhaustion x = write_frame 8 (c.account_exhaustion.marshal x)

  abbrev pub read_account_exhaustion : Stream → Wired NodeTcpPayload
  read_account_exhaustion s = do
    b ← read_frame true 8 s
    parsed account_exhaustion (c.account_exhaustion.unmarshal b)

  -- The job is sent as JSON.
  abbrev pub update_message : JobUpdateRequest → Option JobUpdateMessage
  update_message x = elim (c.job.marshal x.job) [
    | none ↦ none
    | some b ↦
        some (record {
          auth_username = x.auth_username;
          auth_password = x.auth_password;
          job_data = b;
        })
  ]

  abbrev pub update_of_message : JobUpdateMessage → Option JobUpdateRequest
  update_of_message m = elim (c.job.unmarshal m.job_data) [
    | none ↦ none
    | some j ↦
        some (record { auth_username = m.auth_username; auth_password = m.auth_password; job = j })
  ]

  abbrev pub marshal_update : Option JobUpdateMessage → Option Bytes
  marshal_update none = none
  marshal_update (some m) = c.job_update_request.marshal m

  abbrev pub unmarshal_update : Option JobUpdateMessage → Option JobUpdateRequest
  unmarshal_update none = none
  unmarshal_update (some m) = update_of_message m

  abbrev pub write_job_update_request : JobUpdateRequest → Option Bytes
  write_job_update_request x = write_frame 9 (marshal_update (update_message x))

  abbrev pub read_job_update_request : Stream → Wired NodeTcpPayload
  read_job_update_request s = do
    b ← read_frame true 9 s
    parsed job_update_request (unmarshal_update (c.job_update_request.unmarshal b))

  -- `WriteTo` of any payload.
  abbrev pub write_to : NodeTcpPayload → Option Bytes
  write_to (node_auth x) = write_node_auth x
  write_to (string t) = write_string t
  write_to (fetch_remote_data x) = write_fetch_remote_data x
  write_to (async_task t) = write_async_task t
  write_to (quota_allocation x) = write_quota_allocation x
  write_to (local_quota_request x) = write_local_quota_request x
  write_to (local_quota_response x) = write_local_quota_response x
  write_to (account_exhaustion x) = write_account_exhaustion x
  write_to (job_update_request x) = write_job_update_request x

  -- `ReadFrom` of the payload that a type byte names.
  abbrev pub read_from : Bytes → Stream → Wired NodeTcpPayload
  read_from typ s =
      if text_eq typ (1 ∷ [])
      then read_node_auth s
      else if text_eq typ (2 ∷ [])
      then read_string s
      else if text_eq typ (3 ∷ [])
      then read_fetch_remote_data s
      else if text_eq typ (4 ∷ [])
      then read_async_task s
      else if text_eq typ (5 ∷ [])
      then read_quota_allocation s
      else if text_eq typ (6 ∷ [])
      then read_local_quota_request s
      else if text_eq typ (7 ∷ [])
      then read_local_quota_response s
      else if text_eq typ (8 ∷ [])
      then read_account_exhaustion s
      else if text_eq typ (9 ∷ [])
      then read_job_update_request s
      else failed unknown_type

  -- The byte that was read is put before the stream again.
  unfoldable pub decode : Stream → Wired NodeTcpPayload
  decode s = do (typ, rest) ← read_full false 1 s; read_from typ (typ ∷ rest)
