-- ===== src/Tests/Node.antt =====
-- Messages between two nodes.
use mathlib.Core.Path.{subst}
use scheduler.Prelude.{
  ℕ, zero, suc, ◌≤◌, ◌≡◌, true, false, Option, none, some, List, [], ◌∷◌, ◌++◌, length, take, drop,
  arith, refl, inr,
}
use scheduler.Prelude.Result.{Text, codes}
use scheduler.Node.Stream.{read, Bytes, Stream, got, read_full}
use scheduler.Node.Stream.Reading.{take-append, drop-append}
use scheduler.Node.Payloads.{
  read_frame, QuotaAllocation, Format, Codec, NodeTcpPayload, string, quota_allocation, decode,
}
use scheduler.Node.Payloads.RoundTrip.{ReadsBack, IsLawful, Delivers, decode-write_to, decode_cut}
use scheduler.Node.Server.{Secrets, Server, update_local_quota_allocations, handle, no_task, serve}
use scheduler.Node.Server.Denials.{handle_denied}
use scheduler.Node.Client.{
  network, done, Exchange, not_connected, replied, Trial, ended, with_retry, check_command,
  send_quota_allocation,
}
use scheduler.Node.Client.Retries.{Returns, total, with_retry-Returns}
use scheduler.Node.Client.Quotas.{send_quota_allocation-serve}

-- A format: each text behind its length, and the allocations one after the other.
abbrev flat : List (ℕ × ℕ) → Bytes
flat [] = []
flat ((a, n) ∷ xs) = a ∷ n ∷ flat xs

abbrev pairs : Bytes → List (ℕ × ℕ)
pairs [] = []
pairs (a ∷ []) = []
pairs (a ∷ n ∷ bs) = (a, n) ∷ pairs bs

pairs-flat : (xs : List (ℕ × ℕ)) → pairs (flat xs) ≡ xs
pairs-flat [] = refl
pairs-flat ((a, n) ∷ xs) = rw (pairs-flat xs)

abbrev allocation_of : Text → Bytes → Option QuotaAllocation
allocation_of username [] = none
allocation_of username (m ∷ bs) = some (record {
  auth_username = username;
  auth_password = take m bs;
  account_allocations = pairs (drop m bs);
})

abbrev parse_allocation : Bytes → Option QuotaAllocation
parse_allocation [] = none
parse_allocation (n ∷ bs) = allocation_of (take n bs) (drop n bs)

abbrev prefixed : Text → Bytes → Bytes
prefixed t rest = length t ∷ (t ++ rest)

abbrev print_allocation : QuotaAllocation → Bytes
print_allocation x =
    prefixed x.auth_username (prefixed x.auth_password (flat x.account_allocations))

abbrev quota_format : Format QuotaAllocation
quota_format = record { marshal = λ x. some (print_allocation x); unmarshal = parse_allocation }

parse-print : (x : QuotaAllocation) → parse_allocation (print_allocation x) ≡ some x
parse-print x =
    let u = x.auth_username in
    let p = x.auth_password in
    let f = flat x.account_allocations in
    rw (
      take-append u (prefixed p f),
      drop-append u (prefixed p f),
      take-append p f,
      drop-append p f,
      pairs-flat x.account_allocations,
    )

quota_format-ReadsBack : ReadsBack quota_format
quota_format-ReadsBack x b e =
    let q : print_allocation x ≡ b = ground arith in
    subst (λ z. parse_allocation z ≡ some x) q (parse-print x)

-- A format that fails.
abbrev failing : {A : Type 0} → Format A
failing = record { marshal = λ x. none; unmarshal = λ b. none }

failing-ReadsBack : {A : Type 0} → ReadsBack {A = A} failing
failing-ReadsBack x b e = absurd (ground arith)

abbrev formats : Codec
formats = record {
  node_auth = failing;
  fetch_remote_data = failing;
  async_task = failing;
  quota_allocation = quota_format;
  local_quota_request = failing;
  local_quota_response = failing;
  account_exhaustion = failing;
  job_update_request = failing;
  job = failing;
}

formats-IsLawful : IsLawful formats
formats-IsLawful = record {
  node_auth = failing-ReadsBack;
  fetch_remote_data = failing-ReadsBack;
  async_task = failing-ReadsBack;
  quota_allocation = quota_format-ReadsBack;
  local_quota_request = failing-ReadsBack;
  local_quota_response = failing-ReadsBack;
  account_exhaustion = failing-ReadsBack;
  job_update_request = failing-ReadsBack;
  job = failing-ReadsBack;
}

abbrev secrets : Secrets
secrets = record { auth_username = codes "u"; auth_password = codes "p" }

abbrev node : Server
node = record {
  secrets = secrets;
  has_node_service = true;
  request_id = codes "x";
  local_quotas = (5, 60) ∷ [];
  quota_error = none;
  status_error = none;
  update_error = none;
  task_of = λ t. no_task;
}

abbrev quotas : NodeTcpPayload
quotas = quota_allocation (record {
  auth_username = codes "u";
  auth_password = codes "p";
  account_allocations = (5, 100) ∷ [];
})

-- The head of the message in three pieces.
abbrev quota_bytes : Bytes
quota_bytes = 5 ∷ 0 ∷ 0 ∷ 0 ∷ 6 ∷ 1 ∷ 117 ∷ 1 ∷ 112 ∷ 5 ∷ 100 ∷ []

abbrev quota_stream : Stream
quota_stream = (5 ∷ 0 ∷ []) ∷ (0 ∷ 0 ∷ []) ∷ (6 ∷ []) ∷ (1 ∷ 117 ∷ 1 ∷ 112 ∷ 5 ∷ 100 ∷ []) ∷ []

quota_stream-Delivers : Delivers quota_bytes quota_stream
quota_stream-Delivers = (refl, inr ([], [], refl))

decode-write_to_example : decode formats quota_stream ≡ got quotas
decode-write_to_example =
    decode-write_to formats quotas quota_bytes quota_stream formats-IsLawful refl (ground arith)
      quota_stream-Delivers

decode_cut_example :
    decode formats ((2 ∷ 0 ∷ 0 ∷ 0 ∷ 3 ∷ 104 ∷ []) ∷ (101 ∷ 121 ∷ []) ∷ [])
    ≡ got (string (104 ∷ 0 ∷ 0 ∷ []))
decode_cut_example =
    decode_cut formats (104 ∷ []) (101 ∷ 121 ∷ [])
      ((2 ∷ 0 ∷ 0 ∷ 0 ∷ 3 ∷ 104 ∷ []) ∷ (101 ∷ 121 ∷ []) ∷ []) [] refl refl (ground arith)
      (ground arith)

-- A password that is not the node's.
handle_denied_example :
    handle node (
      quota_allocation (record {
        auth_username = codes "u";
        auth_password = codes "q";
        account_allocations = (5, 100) ∷ [];
      }))
    ≡ ([], some (string (codes "incorrect_credentials")))
handle_denied_example =
    handle_denied node
      (quota_allocation (record {
        auth_username = codes "u";
        auth_password = codes "q";
        account_allocations = (5, 100) ∷ [];
      }))
      refl

-- A peer that cannot be reached, then answers.
abbrev trial : Exchange → Trial
trial e = record { done_before = false; exchange = e; done_after = false; random = 7 }

abbrev second_time : ℕ → Trial
second_time zero = trial (not_connected (network true []))
second_time (suc n) = trial (replied ((2 ∷ 0 ∷ 0 ∷ 0 ∷ 2 ∷ 111 ∷ 107 ∷ []) ∷ []))

second_time_ends :
    with_retry formats check_command second_time
    ≡ record { answer = done tt; attempts = 2; pauses = 200000007 ∷ [] }
unfolding with_retry read_full read_frame read
second_time_ends = refl

with_retry-Returns_example :
    Returns formats check_command second_time 0 3 (with_retry formats check_command second_time)
    × ((with_retry formats check_command second_time).attempts ≤ 4)
    × (total (with_retry formats check_command second_time).pauses ≤ 2100000000)
with_retry-Returns_example = with_retry-Returns formats check_command second_time

abbrev answer_stream : Stream
answer_stream = (2 ∷ 0 ∷ 0 ∷ 0 ∷ 25 ∷ []) ∷ codes "quota_allocation_received" ∷ []

answer_stream-Delivers : Delivers ((serve node formats quota_stream).1) answer_stream
unfolding serve read_full read_frame read
answer_stream-Delivers = (refl, inr ([], [], refl))

send_quota_allocation-serve_example :
    ((serve node formats quota_stream).0 ≡ update_local_quota_allocations ((5, 100) ∷ []) ∷ [])
    × ((send_quota_allocation formats secrets
          ((5, 100) ∷ [])
          (λ n. trial (replied answer_stream))).0
        ≡ quotas)
    × ((send_quota_allocation formats secrets
          ((5, 100) ∷ [])
          (λ n. trial (replied answer_stream))).1
        ≡ ended (done tt))
send_quota_allocation-serve_example =
    send_quota_allocation-serve formats formats-IsLawful node secrets ((5, 100) ∷ []) quota_bytes
      quota_stream answer_stream (λ n. trial (replied answer_stream)) refl (ground arith)
      quota_stream-Delivers answer_stream-Delivers refl refl
