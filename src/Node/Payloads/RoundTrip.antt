-- ===== src/Node/Payloads/RoundTrip.antt =====
-- What is written is read back.
use mathlib.Core.Path.{subst, sym}
use scheduler.Prelude.{
  ℕ, ◌+◌, ◌%◌, ◌≤◌, ◌<◌, ◌≡◌, ◌∙◌, ap, Bool, true, false, some, [], ◌∷◌, ◌++◌, length, take, drop,
  flatten, arith, refl, Option-cases, inl, inr, replicate,
}
use scheduler.Node.Stream.{Bytes, Stream, got, ◌>>=◌, read_full, big_endian}
use scheduler.Node.Stream.Reading.{advance, trim, read_full-advance}
use scheduler.Node.Payloads.{
  Format, Codec, JobUpdateRequest, NodeTcpPayload, node_auth, string, fetch_remote_data, async_task,
  quota_allocation, local_quota_request, local_quota_response, account_exhaustion,
  job_update_request, write_frame, read_frame, parsed, task_message, task_of_message,
  update_message, marshal_update, unmarshal_update, write_to, decode,
}
use scheduler.Node.Payloads.Frames.{Whole, Headed, Arrives, read_frame_whole, read_frame_cut}

-- What Protocol Buffers and JSON are relied on for: a value is read back from its bytes.
abbrev pub ReadsBack : {A : Type 0} → Format A → Type 0
ReadsBack {A} f = (x : A) (b : Bytes) → f.marshal x ≡ some b → f.unmarshal b ≡ some x

pub record IsLawful (c : Codec) : Type 0 where
  pub node_auth : ReadsBack c.node_auth
  pub fetch_remote_data : ReadsBack c.fetch_remote_data
  pub async_task : ReadsBack c.async_task
  pub quota_allocation : ReadsBack c.quota_allocation
  pub local_quota_request : ReadsBack c.local_quota_request
  pub local_quota_response : ReadsBack c.local_quota_response
  pub account_exhaustion : ReadsBack c.account_exhaustion
  pub job_update_request : ReadsBack c.job_update_request
  pub job : ReadsBack c.job

-- A task loses its account and the time of its last change.
abbrev pub received : NodeTcpPayload → NodeTcpPayload
received (async_task t) = async_task (record t { account_id = 0; date_modified = 0 })
received (node_auth x) = node_auth x
received (string t) = string t
received (fetch_remote_data x) = fetch_remote_data x
received (quota_allocation x) = quota_allocation x
received (local_quota_request x) = local_quota_request x
received (local_quota_response x) = local_quota_response x
received (account_exhaustion x) = account_exhaustion x
received (job_update_request x) = job_update_request x

-- The bytes arrive at the front of a stream: the first five, for the type and the size, in any
-- pieces, and the others in one piece.
abbrev pub Delivers : Bytes → Stream → Type 0
Delivers bytes s = (take 5 (flatten s) ≡ take 5 bytes) × Whole (drop 5 bytes) (advance 5 s)

first_of :
    (xs : Bytes) (tag : ℕ) (ys : Bytes)
    → take 5 xs ≡ tag ∷ ys
    → (1 ≤ length xs) × (take 1 xs ≡ tag ∷ [])
first_of [] tag ys h = absurd (ground arith)
first_of (x ∷ xs) tag ys h = (omega arith, cc)

first_byte :
    (tag size : ℕ) (s : Stream)
    → Headed tag size s
    → (1 ≤ length (flatten s)) × (take 1 (flatten s) ≡ tag ∷ [])
first_byte tag size s h = first_of (flatten s) tag (big_endian size) h

abbrev frame : ℕ → Bytes → Bytes
frame tag body = tag ∷ big_endian (length body % 4294967296) ++ body

framed :
    (tag : ℕ) (body : Bytes) (s : Stream)
    → Delivers (frame tag body) s
    → length (frame tag body) ≤ 10485765
    → Arrives tag body s × (length body ≤ 10485760)
framed tag body s (h, w) l =
    let m : length body % 4294967296 ≡ length body = omega arith in
    ((h ∙ ap (λ (n : ℕ). tag ∷ big_endian n) m, w), omega arith)

-- The type byte, and the body.
frame_read :
    (limited : Bool) (tag : ℕ) (body bytes : Bytes) (s : Stream)
    → frame tag body ≡ bytes
    → Delivers bytes s
    → length bytes ≤ 10485765
    → (read_full false 1 s ≡ got (tag ∷ [], advance 1 s))
      × (read_frame limited tag ((tag ∷ []) ∷ advance 1 s) ≡ got body)
frame_read limited tag body bytes s q d l =
    let ((h, w), k) =
      framed tag body s (subst (λ b. Delivers b s) (sym q) d)
        (subst (λ (b : Bytes). length b ≤ 10485765) (sym q) l) in
    let (n, e) = first_byte tag (length body) s h in
    (
      read_full-advance false 1 s n ∙ rw e,
      read_frame_whole limited tag body s (h, w) (omega (arith, k)) (ground (arith, k)),
    )

-- A payload by its format.
Format_read :
    {A : Type 0} (f : Format A) (wrap : A → NodeTcpPayload) (tag : ℕ) (x : A) (bytes : Bytes)
    (s : Stream)
    → ReadsBack f
    → write_frame tag (f.marshal x) ≡ some bytes
    → length bytes ≤ 10485765
    → Delivers bytes s
    → (read_full false 1 s ≡ got (tag ∷ [], advance 1 s))
      × ((read_frame true tag ((tag ∷ []) ∷ advance 1 s) >>= λ b. parsed wrap (f.unmarshal b))
          ≡ got (wrap x))
Format_read f wrap tag x bytes s law e l d = elim (Option-cases (f.marshal x)) [
  | inl n ↦ absurd (ground arith)
  | inr (body, n) ↦
      let q : frame tag body ≡ bytes = ground arith in
      let (a, r) = frame_read true tag body bytes s q d l in (a, rw (r, law x body n))
]

update_format : Codec → Format JobUpdateRequest
update_format c = record {
  marshal = λ x. marshal_update c (update_message c x);
  unmarshal = λ b. unmarshal_update c (c.job_update_request.unmarshal b);
}

update_format-ReadsBack : (c : Codec) → IsLawful c → ReadsBack (update_format c)
unfolding update_format
update_format-ReadsBack c law x b e = elim (Option-cases (c.job.marshal x.job)) [
  | inl n ↦ absurd (ground arith)
  | inr (j, n) ↦ ground (
    arith,
    law.job x.job j n,
    law.job_update_request
        (record { auth_username = x.auth_username; auth_password = x.auth_password; job_data = j })
        b,
  )
]

-- With formats that read back what they write, a payload whose bytes, at most the limit of a body
-- and five, arrive with the body in one piece, is decoded as it was written, but for the account and
-- the time of the last change of a task, which are not sent.
pub decode-write_to :
    (c : Codec) (p : NodeTcpPayload) (bytes : Bytes) (s : Stream)
    → IsLawful c
    → write_to c p ≡ some bytes
    → length bytes ≤ 10485765
    → Delivers bytes s
    → decode c s ≡ got (received p)
unfolding decode update_format
decode-write_to c (node_auth x) bytes s law e l d =
    let (a, r) = Format_read c.node_auth node_auth 1 x bytes s law.node_auth e l d in
    rw (a, decode) r
decode-write_to c (string t) bytes s law e l d =
    let q : frame 2 t ≡ bytes = ground arith in
    let (a, r) = frame_read false 2 t bytes s q d l in rw (a, decode, r)
decode-write_to c (fetch_remote_data x) bytes s law e l d =
    let (a, r) =
      Format_read c.fetch_remote_data fetch_remote_data 3 x bytes s law.fetch_remote_data e l d in
    rw (a, decode) r
decode-write_to c (async_task t) bytes s law e l d =
    let (a, r) =
      Format_read c.async_task (λ m. async_task (task_of_message m)) 4 (task_message t) bytes s
        law.async_task e l d in
    rw (a, decode) r
decode-write_to c (quota_allocation x) bytes s law e l d =
    let (a, r) =
      Format_read c.quota_allocation quota_allocation 5 x bytes s law.quota_allocation e l d in
    rw (a, decode) r
decode-write_to c (local_quota_request x) bytes s law e l d =
    let (a, r) =
      Format_read c.local_quota_request local_quota_request 6 x bytes s law.local_quota_request e l
        d in
    rw (a, decode) r
decode-write_to c (local_quota_response x) bytes s law e l d =
    let (a, r) =
      Format_read c.local_quota_response local_quota_response 7 x bytes s law.local_quota_response e
        l d in
    rw (a, decode) r
decode-write_to c (account_exhaustion x) bytes s law e l d =
    let (a, r) =
      Format_read c.account_exhaustion account_exhaustion 8 x bytes s law.account_exhaustion e l
        d in
    rw (a, decode) r
decode-write_to c (job_update_request x) bytes s law e l d =
    let (a, r) =
      Format_read (update_format c) job_update_request 9 x bytes s (update_format-ReadsBack c law) e
        l d in
    rw (a, decode) r

-- A text that arrives in two pieces, the first of them not empty, is decoded with no error, and has
-- zeros in place of the second piece.
pub decode_cut :
    (c : Codec) (front back : Bytes) (s rest : Stream)
    → take 5 (flatten s) ≡ 2 ∷ big_endian (length front + length back)
    → trim (advance 5 s) ≡ front ∷ back ∷ rest
    → 0 < length front
    → length front + length back < 4294967296
    → decode c s ≡ got (string (front ++ replicate (length back) 0))
unfolding decode
decode_cut c front back s rest h a p l =
    let (n, e) = first_byte 2 (length front + length back) s h in
    let r : read_full false 1 s ≡ got (2 ∷ [], advance 1 s) =
      read_full-advance false 1 s n ∙ rw e in
    rw (r, decode, read_frame_cut false 2 front back s (back ∷ rest) h a p l refl)
