-- ===== src/Node/Client/Quotas.antt =====
-- `SendQuotaAllocation` against the peer's server.
use mathlib.Core.Path.{subst}
use scheduler.Prelude.{
  ℕ, ◌%◌, ◌≤◌, ◌≡◌, false, ◌&&◌, none, some, List, [], ◌∷◌, ◌++◌, length, if◌then◌else◌, arith,
  refl, Bool-cases, Option-cases, inl, inr,
}
use scheduler.Prelude.Result.{Text, codes}
use scheduler.Node.Stream.{Bytes, Stream, got, big_endian}
use scheduler.Node.Payloads.{Codec, NodeTcpPayload, string, quota_allocation, write_to, decode}
use scheduler.Node.Payloads.RoundTrip.{IsLawful, Delivers, decode-write_to}
use scheduler.Node.Server.{
  Secrets, Server, NodeCall, update_local_quota_allocations, incorrect_credentials, authorised,
  quota_reply, handle_quota_allocation, handle, written, serve,
}
use scheduler.Node.Client.{
  authentication_failed, refused, Answer, done, error, replied, try_once, ended, settle_attempt,
  retry_loop, with_retry, Tried, is_retriable, says_reset, check_result, send_quota_allocation,
  Trial,
}

abbrev no_service : Text
no_service = codes "error: node service not available"

abbrev not_updated : Text
not_updated = codes "error: failed to update quota allocations"

-- What the server answers, for the secrets of the client and the state of the server.
abbrev reply : Server → Secrets → Text
reply v s =
    if authorised v.secrets s.auth_username s.auth_password
    then (if v.has_node_service then quota_reply v.quota_error else no_service)
    else incorrect_credentials

abbrev failure : Text
failure = codes "quota allocation failed: "

-- What a client makes of the answer.
abbrev pub verdict : Server → Secrets → Answer (Unit {0})
verdict v s =
    if authorised v.secrets s.auth_username s.auth_password
    then (if v.has_node_service
        then (elim v.quota_error [
          | none ↦ done tt
          | some e ↦ error (refused (failure ++ not_updated))
        ])
        else error (refused (failure ++ no_service)))
    else error authentication_failed

-- The four answers with their verdicts.
reply-cases :
    (v : Server) (s : Secrets) (P : Text → Answer (Unit {0}) → Type 0)
    → P incorrect_credentials (error authentication_failed)
    → P no_service (error (refused (failure ++ no_service)))
    → P (codes "quota_allocation_received") (done tt)
    → P not_updated (error (refused (failure ++ not_updated)))
    → P (reply v s) (verdict v s)
reply-cases v s P denied_case no_service_case taken_case failed_case =
    elim (Bool-cases (authorised v.secrets s.auth_username s.auth_password)) [
      | inr a ↦ rw a denied_case
      | inl a ↦ elim (Bool-cases v.has_node_service) [
        | inr n ↦ rw (a, n) no_service_case
        | inl n ↦ elim (Option-cases v.quota_error) [
          | inl q ↦ rw (a, n, q) taken_case
          | inr (e, q) ↦ rw (a, n, q) failed_case
        ]
      ]
    ]

checked : (v : Server) (s : Secrets) → check_result failure (string (reply v s)) ≡ verdict v s
checked v s = reply-cases v s (λ t r. check_result failure (string t) ≡ r) refl refl refl refl

length-reply : (v : Server) (s : Secrets) → length (reply v s) ≤ 100
length-reply v s =
    reply-cases v s (λ t r. length t ≤ 100) (omega arith) (omega arith) (omega arith) (omega arith)

-- No verdict is tried again.
settle_verdict :
    (v : Server) (s : Secrets) (t : Trial) (backoff : ℕ) (rest : Tried (Unit {0}))
    → settle_attempt t backoff rest (verdict v s) ≡ ended (verdict v s)
unfolding is_retriable says_reset
settle_verdict v s t b rest =
    reply-cases v s (λ x r. settle_attempt t b rest r ≡ ended r) refl refl refl refl

abbrev frame : Text → Bytes
frame t = 2 ∷ big_endian (length t % 4294967296) ++ t

-- What the server does with the request of a client.
module _ (c : Codec) (law : IsLawful c) (v : Server) (s : Secrets)
    (allocations : List (ℕ × ℕ)) where
  abbrev pub request : NodeTcpPayload
  request = quota_allocation (record {
    auth_username = s.auth_username;
    auth_password = s.auth_password;
    account_allocations = allocations;
  })

  -- What the server is told to change.
  abbrev pub expected_calls : List NodeCall
  expected_calls =
      if authorised v.secrets s.auth_username s.auth_password && v.has_node_service
      then update_local_quota_allocations allocations ∷ []
      else []

  handled : handle v request ≡ (expected_calls, some (string (reply v s)))
  unfolding handle_quota_allocation
  handled = ground arith

  served :
      (bytes : Bytes) (request_stream : Stream)
      → write_to c request ≡ some bytes
      → length bytes ≤ 10485765
      → Delivers bytes request_stream
      → serve v c request_stream ≡ written c (expected_calls, some (string (reply v s)))
  unfolding serve
  served bytes r e l d = rw (decode-write_to c request bytes r law e l d, serve) (rw handled)

  -- With formats that read back what they write, when a request of at most the limit of a body and
  -- five bytes arrives with its body in one piece, the server changes its quotas if the secrets
  -- agree and it has a node service, and changes nothing else. When the bytes of its answer arrive
  -- so in the client's first attempt, whose context is not done before it, the client succeeds if
  -- and only if the server has taken the quotas with no error; if not, it has the error that tells
  -- what went wrong, and does not try again.
  pub send_quota_allocation-serve :
      (bytes : Bytes) (request_stream answer_stream : Stream) (trials : ℕ → Trial)
      → write_to c request ≡ some bytes
      → length bytes ≤ 10485765
      → Delivers bytes request_stream
      → Delivers ((serve v c request_stream).1) answer_stream
      → (trials 0).done_before ≡ false
      → (trials 0).exchange ≡ replied answer_stream
      → ((serve v c request_stream).0 ≡ expected_calls)
        × ((send_quota_allocation c s allocations trials).0 ≡ request)
        × ((send_quota_allocation c s allocations trials).1 ≡ ended (verdict v s))
  unfolding send_quota_allocation with_retry retry_loop try_once
  send_quota_allocation-serve bytes r a trials e l d w b q =
      let v1 = served bytes r e l d in
      let d2 : Delivers (frame (reply v s)) a = subst (λ x. Delivers (x.1) a) v1 w in
      let r2 : decode c a ≡ got (string (reply v s)) =
        decode-write_to c (string (reply v s)) (frame (reply v s)) a law refl
          (omega (arith, length-reply v s)) d2 in
      let o : try_once c (check_result failure) ((trials 0).exchange) ≡ verdict v s =
        rw (q, try_once, r2) (checked v s) in
      (
        rw v1,
        refl,
        rw (send_quota_allocation, with_retry, retry_loop, b, o)
            (settle_verdict v s (trials 0) 200000000
              (retry_loop c (check_result failure) 2 1 400000000 trials)),
      )
