-- ===== src/Node/Client.antt =====
-- pkg/service/node/tcp_client.go: an operation on a peer, tried again after errors of the network.
pub mod Retries
pub mod Quotas
use scheduler.Prelude.{
  ℕ, zero, suc, ◌+◌, ◌-◌, ◌*◌, ◌/◌, ◌%◌, Bool, true, false, ◌&&◌, ◌||◌, not, Option, none, some,
  List, [], ◌∷◌, ◌++◌, ltb, leb, ◌==◌, map, if◌then◌else◌,
}
use scheduler.Prelude.Result.{Text, text_eq, is_empty, codes}
use scheduler.Models.{Job}
use scheduler.AsyncTask.{AsyncTask}
use scheduler.Node.Stream.{
  Stream, WireError, eof, unexpected_eof, unknown_type, invalid_type, too_big, malformed, got,
  failed,
}
use scheduler.Node.Payloads.{
  NodeAuth, FetchRemoteData, QuotaAllocation, LocalQuotaRequest, LocalQuotaResponse,
  AccountExhaustion, JobUpdateRequest, Codec, NodeTcpPayload, node_auth, string, fetch_remote_data,
  async_task, quota_allocation, local_quota_request, local_quota_response, account_exhaustion,
  job_update_request, decode,
}
use scheduler.Node.Server.{Secrets, incorrect_credentials}

-- `network` is an error of the connection: whether it is a timeout, temporary or an end of file, and
-- its text. `refused` is an error made from the peer's answer.
pub data ClientError : Type 0 where
  cancelled : ClientError
  network : Bool → Text → ClientError
  wire : WireError → ClientError
  authentication_failed unexpected_response invalid_task : ClientError
  refused : Text → ClientError

pub data Answer {ℓ} (A : Type ℓ) : Type ℓ where
  done : A → Answer A
  error : ClientError → Answer A

abbrev pub to_lower : ℕ → ℕ
to_lower b = if leb 65 b && leb b 90 then b + 32 else b

abbrev pub starts_with : Text → Text → Bool
starts_with [] t = true
starts_with (x ∷ xs) [] = false
starts_with (x ∷ xs) (y ∷ ys) = x == y && starts_with xs ys

-- `strings.Contains`, the text sought first.
abbrev pub contains_text : Text → Text → Bool
contains_text p [] = is_empty p
contains_text p (y ∷ ys) = starts_with p (y ∷ ys) || contains_text p ys

unfoldable pub says_reset : Text → Bool
says_reset t = contains_text (codes "connection reset by peer") (map to_lower t)

abbrev pub is_eof : WireError → Bool
is_eof eof = true
is_eof unexpected_eof = false
is_eof unknown_type = false
is_eof invalid_type = false
is_eof too_big = false
is_eof malformed = false

-- `isRetriableTCPErr`.
unfoldable pub is_retriable : ClientError → Bool
unfolding says_reset
is_retriable cancelled = false
is_retriable (network transient t) = transient || says_reset t
is_retriable (wire e) = is_eof e
is_retriable authentication_failed = false
is_retriable unexpected_response = false
is_retriable invalid_task = false
is_retriable (refused t) = says_reset t

-- What an attempt meets: no connection, a context that is done, a failed write, or the bytes of an
-- answer.
pub data Exchange : Type 0 where
  not_connected not_written : ClientError → Exchange
  context_done : Exchange
  replied : Stream → Exchange

-- An attempt with the state of the context before it and in the pause after it, and a random number
-- for that pause.
pub record Trial : Type 0 where
  pub done_before : Bool
  pub exchange : Exchange
  pub done_after : Bool
  pub random : ℕ

-- What an operation returns, how often it was tried, and the pauses that it made, in nanoseconds.
pub record Tried (A : Type 0) : Type 0 where
  pub answer : Answer A
  pub attempts : ℕ
  pub pauses : List ℕ

abbrev pub next_backoff : ℕ → ℕ
next_backoff b = if ltb 5000000000 (b * 2) then 5000000000 else b * 2

abbrev pub pause : ℕ → ℕ → ℕ
pause backoff random = backoff + (if ltb 0 (backoff / 2) then random % (backoff / 2) else 0)

module _ {A : Type 0} where
  abbrev pub ended : Answer A → Tried A
  ended r = record { answer = r; attempts = 1; pauses = [] }

  abbrev pub after_pause : ℕ → Tried A → Tried A
  after_pause p t = record { answer = t.answer; attempts = t.attempts + 1; pauses = p ∷ t.pauses }

  abbrev pub stopped : ℕ → Tried A
  stopped n = record { answer = error cancelled; attempts = n; pauses = [] }

  -- After an attempt that more may follow: `rest` is what they come to.
  abbrev pub settle_attempt : Trial → ℕ → Tried A → Answer A → Tried A
  settle_attempt t backoff rest (done x) = ended (done x)
  settle_attempt t backoff rest (error e) =
      if is_retriable e
      then (if t.done_after then stopped 1 else after_pause (pause backoff t.random) rest)
      else ended (error e)

module _ {A : Type 0} (c : Codec) (check : NodeTcpPayload → Answer A) where
  -- The function that an operation tries: `check` is what it makes of the decoded answer.
  unfoldable pub try_once : Exchange → Answer A
  unfolding decode
  try_once (not_connected e) = error e
  try_once (not_written e) = error e
  try_once context_done = error cancelled
  try_once (replied s) = elim (decode c s) [ failed e ↦ error (wire e) | got p ↦ check p ]

  -- `left` attempts may follow the attempt `k`.
  unfoldable pub retry_loop : ℕ → ℕ → ℕ → (ℕ → Trial) → Tried A
  unfolding try_once is_retriable
  retry_loop zero k backoff trials =
      if (trials k).done_before then stopped 0 else ended (try_once (trials k).exchange)
  retry_loop (suc left) k backoff trials =
      let rest = retry_loop left (k + 1) (next_backoff backoff) trials in
      if (trials k).done_before
      then stopped 0
      else settle_attempt (trials k) backoff rest (try_once (trials k).exchange)

  -- `withRetry`.
  unfoldable pub with_retry : (ℕ → Trial) → Tried A
  unfolding retry_loop
  with_retry trials = retry_loop 3 0 200000000 trials

-- The answers of `StopJobs` and `StartJobs`. An answer of another type is taken for a success.
abbrev pub check_command : NodeTcpPayload → Answer (Unit {0})
check_command (string t) =
    if text_eq t incorrect_credentials then error authentication_failed else done tt
check_command p = done tt

-- The answers of `SendQuotaAllocation`, `NotifyAccountExhaustion` and `UpdateJobOnLeader`.
abbrev pub check_result : Text → NodeTcpPayload → Answer (Unit {0})
check_result what (string t) =
    if text_eq t incorrect_credentials
    then error authentication_failed
    else if starts_with (codes "error:") t
    then error (refused (what ++ t))
    else done tt
check_result what p = done tt

abbrev pub check_local_quotas : NodeTcpPayload → Answer (List (ℕ × ℕ))
check_local_quotas (local_quota_response x) = done x.account_allocations
check_local_quotas p = error unexpected_response

abbrev pub check_request_id : NodeTcpPayload → Answer Text
check_request_id (string t) =
    if text_eq t incorrect_credentials then error (refused incorrect_credentials) else done t
check_request_id p = error unexpected_response

-- `parse` reads the JSON of the task's output.
abbrev pub check_task : {D : Type 0} → (Text → Answer D) → NodeTcpPayload → Answer D
check_task parse (async_task t) =
    if is_empty t.request_id then error invalid_task else parse t.output
check_task parse p = error unexpected_response

-- `Status`, whose two fields are both true.
abbrev pub check_connected : NodeTcpPayload → Answer (Bool × Bool)
check_connected (string t) =
    if text_eq t incorrect_credentials then error authentication_failed else done (true, true)
check_connected p = error unexpected_response

-- The operations: the payload that is written in every attempt, and what they return.
module _ (c : Codec) (s : Secrets) where
  abbrev pub fetch : Text → NodeTcpPayload
  fetch id = fetch_remote_data (record {
    phase = [];
    auth_username = s.auth_username;
    auth_password = s.auth_password;
    request_id = id;
  })

  unfoldable pub stop_jobs : (ℕ → Trial) → NodeTcpPayload × Tried (Unit {0})
  unfolding with_retry
  stop_jobs trials = (fetch (codes "stop_jobs"), with_retry c check_command trials)

  unfoldable pub start_jobs : (ℕ → Trial) → NodeTcpPayload × Tried (Unit {0})
  unfolding with_retry
  start_jobs trials = (fetch (codes "start_jobs"), with_retry c check_command trials)

  unfoldable pub send_quota_allocation :
      List (ℕ × ℕ) → (ℕ → Trial) → NodeTcpPayload × Tried (Unit {0})
  unfolding with_retry
  send_quota_allocation allocations trials = (
    quota_allocation (record {
      auth_username = s.auth_username;
      auth_password = s.auth_password;
      account_allocations = allocations;
    }),
    with_retry c (check_result (codes "quota allocation failed: ")) trials,
  )

  unfoldable pub request_local_quota_allocations :
      (ℕ → Trial) → NodeTcpPayload × Tried (List (ℕ × ℕ))
  unfolding with_retry
  request_local_quota_allocations trials = (
    local_quota_request
        (record { auth_username = s.auth_username; auth_password = s.auth_password }),
    with_retry c check_local_quotas trials,
  )

  unfoldable pub notify_account_exhaustion : ℕ → (ℕ → Trial) → NodeTcpPayload × Tried (Unit {0})
  unfolding with_retry
  notify_account_exhaustion account trials = (
    account_exhaustion (record {
      auth_username = s.auth_username;
      auth_password = s.auth_password;
      account_id = account;
    }),
    with_retry c (check_result (codes "account exhaustion notification failed: ")) trials,
  )

  unfoldable pub update_job_on_leader : Job → (ℕ → Trial) → NodeTcpPayload × Tried (Unit {0})
  unfolding with_retry
  update_job_on_leader j trials = (
    job_update_request
        (record { auth_username = s.auth_username; auth_password = s.auth_password; job = j }),
    with_retry c (check_result (codes "job update failed: ")) trials,
  )

  -- One peer of the first phase, and of the second.
  unfoldable pub fetch_phase_one : (ℕ → Trial) → NodeTcpPayload × Tried Text
  unfolding with_retry
  fetch_phase_one trials = (fetch [], with_retry c check_request_id trials)

  unfoldable pub fetch_phase_two :
      {D : Type 0} → (Text → Answer D) → Text → (ℕ → Trial) → NodeTcpPayload × Tried D
  unfolding with_retry
  fetch_phase_two parse id trials = (fetch id, with_retry c (check_task parse) trials)

  -- The peers by address, one after the other up to the first that fails.
  abbrev pub each_peer : {P D : Type 0} → (P → Tried D) → List (Text × P) → List (Text × D)
  each_peer f [] = []
  each_peer f ((address, p) ∷ peers) =
      let rest = each_peer f peers in
      elim (f p).answer [ error e ↦ [] | done x ↦ (address, x) ∷ rest ]

  -- `FetchUncommittedLogsFromPeersPhase1`: the request ids that are stored.
  unfoldable pub fetch_uncommitted_logs_phase_one : List (Text × (ℕ → Trial)) → List (Text × Text)
  unfolding fetch_phase_one
  fetch_uncommitted_logs_phase_one = each_peer (λ trials. (fetch_phase_one trials).1)

  -- `FetchUncommittedLogsFromPeersPhase2`, with the request ids: the logs that are stored.
  unfoldable pub fetch_uncommitted_logs_phase_two :
      {D : Type 0} → (Text → Answer D) → List (Text × (Text × (ℕ → Trial))) → List (Text × D)
  unfolding fetch_phase_two
  fetch_uncommitted_logs_phase_two parse =
      each_peer (λ ((id, trials) : Text × (ℕ → Trial)). (fetch_phase_two parse id trials).1)

  unfoldable pub connect_node : (ℕ → Trial) → NodeTcpPayload × Tried (Bool × Bool)
  unfolding with_retry
  connect_node trials = (
    node_auth (record { auth_username = s.auth_username; auth_password = s.auth_password }),
    with_retry c check_connected trials,
  )
