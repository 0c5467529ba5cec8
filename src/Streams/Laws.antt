-- ===== src/Streams/Laws.antt =====
-- What the results of the streams client say of the responses (internal/streams/client.go).
use Prim.Native.String.{String, ◌++◌}
use rpc_operator.Prelude.{
  ℕ, ◌≤◌, ◌<◌, ◌≡◌, ◌≢◌, refl, ◌⊎◌, inl, inr, Bool, true, false, none, some, List, [], ◌∷◌, arith,
  nat_eq, leb, Bool-cases, if◌then◌else◌, ltb, ◌&&◌,
}
use rpc_operator.Prelude.Find.{Contains, contains_text-Contains, Contains-contains_text}
use rpc_operator.Fallible.{Fallible}
use rpc_operator.Effects.{ret, Event, Every}
use rpc_operator.Streams.{
  Method, put_method, post_method, delete_method, get_method, Request, HttpReply, no_request,
  no_response, response, rejected, stream_not_found, plain, Result, ok, err, config_rejected,
  stream_url, on_response, stream_req, ensured, ensure_stream, deleted, delete_stream, method_name,
  decoded, read_status, get_stream_status,
}

abbrev pub Sent : Type 0
Sent = List (Event Request (λ _. HttpReply))

-- A permanent rejection of a configuration: a client error, or a gateway error that tells of a
-- component that failed to initialise.
abbrev pub IsRejection : ℕ → String → Type 0
IsRejection status body =
    ((400 ≤ status) × (status < 500)) ⊎ ((status ≡ 502) × Contains "failed to init" body)

config_rejected-IsRejection :
    (status : ℕ) (body : String) → config_rejected status body ≡ true → IsRejection status body
unfolding config_rejected
config_rejected-IsRejection status body e = elim (Bool-cases (leb 400 status && ltb status 500)) [
  | inl client ↦ inl (ground arith, ground arith)
  | inr other ↦ inr (ground arith, contains_text-Contains "failed to init" body (ground arith))
]

IsRejection-config_rejected :
    (status : ℕ) (body : String) → config_rejected status body ≡ false → ¬ IsRejection status body
unfolding config_rejected
IsRejection-config_rejected status body e (inl k) = ground arith
IsRejection-config_rejected status body e (inr (s, k)) =
    let c = Contains-contains_text "failed to init" body k in ground arith

-- What a result says of the reply that it follows.
abbrev pub Fits : HttpReply → Result (Unit {0}) → Type 0
Fits (response status body) (ok u) = status < 300
Fits (response status body) (err (rejected id status' body')) =
    (status' ≡ status) × (body' ≡ body) × IsRejection status body
Fits (response status body) (err (plain e)) = (300 ≤ status) × (¬ IsRejection status body)
Fits (response status body) (err stream_not_found) = ⊥
Fits _ (err (plain e)) = Unit
Fits _ _ = ⊥

-- a relation of the last reply to the result
abbrev pub Last : {A : Type 0} → (HttpReply → Result A → Type 0) → Sent → Result A → Type 0
Last F [] r = ⊥
Last F (e ∷ sent) r = F e.reply r

abbrev pub put_request : String → String → String → Request
put_request base id config = record {
  method = put_method;
  url = stream_url base id;
  sent = some config;
}

-- Each request carries the configuration to the stream's path: first a PUT, and a POST only behind a
-- PUT that was answered with 404.
abbrev pub Upserts : String → String → String → Sent → Request → Type 0
Upserts base id config sent q =
    (q.url ≡ stream_url base id)
    × (q.sent ≡ some config)
    × (((q.method ≡ put_method) × (sent ≡ []))
        ⊎ ((q.method ≡ post_method)
            × (body : String) × (sent
                ≡ record { call = put_request base id config; reply = response 404 body } ∷ [])))

ensured-Fits :
    (id : String) (status : ℕ) (body : String)
    → Fits (response status body) (ensured id status body)
unfolding ensured
ensured-Fits id status body = elim (Bool-cases (config_rejected status body)) [
  | inl e ↦ rw (e, ensured) (refl, refl, config_rejected-IsRejection status body e)
  | inr e ↦ elim (Bool-cases (leb 300 status)) [
    | inl l ↦ rw (e, l, ensured) (ground arith, IsRejection-config_rejected status body e)
    | inr l ↦ rw (e, l, ensured) (ground arith)
  ]
]

number_cases : (m n : ℕ) → (m ≡ n) ⊎ (nat_eq m n ≡ false)
number_cases m n = elim (Bool-cases (nat_eq m n)) [ inl e ↦ inl (ground arith) | inr e ↦ inr e ]

-- the result behind the last response
on_response-Fits :
    (id what : String) (q : Request) (sent : Sent) (P : Sent → Request → Type 0) (r : HttpReply)
    → Every P
        (Last Fits)
        (record { call = q; reply = r } ∷ sent)
        (on_response what r (λ status body. ret (ensured id status body)))
on_response-Fits id what q sent P (no_request e) = tt
on_response-Fits id what q sent P (no_response e) = tt
on_response-Fits id what q sent P (response status body) = ensured-Fits id status body

-- `EnsureStream` sends a PUT with the configuration, and a POST only where the instance answered 404 to
-- it. It reports success only where the last answer has a status below 300, a rejection exactly of the
-- last answer where that is a client error or tells of a failed initialisation, and another error
-- only where there was no answer or it was neither.
pub ensure_stream-Upserts :
    (base id config : String)
    → Every (Upserts base id config) (Last Fits) [] (ensure_stream base id config)
unfolding ensure_stream stream_req
ensure_stream-Upserts base id config = ((refl, refl, inl (refl, refl)), by_reply)
  where
    by_status :
        (status : ℕ) (body : String)
        → (status ≡ 404) ⊎ (nat_eq status 404 ≡ false)
        → Every
            (Upserts base id config)
            (Last Fits)
            (record { call = put_request base id config; reply = response status body } ∷ [])
            (if nat_eq status 404
              then stream_req post_method base id config
                  (λ status' body'. ret (ensured id status' body'))
              else ret (ensured id status body))
    by_status status body (inl e) =
        rw (e, stream_req)
          (
            (refl, refl, inr (refl, body, refl)),
            λ r.
                on_response-Fits id (method_name post_method ++ " stream " ++ id)
                  (record { method = post_method; url = stream_url base id; sent = some config })
                  (record { call = put_request base id config; reply = response 404 body } ∷ [])
                  (Upserts base id config) r,
          )
    by_status status body (inr e) = rw e (ensured-Fits id status body)

    by_reply :
        (r : HttpReply)
        → Every
            (Upserts base id config)
            (Last Fits)
            (record { call = put_request base id config; reply = r } ∷ [])
            (on_response (method_name put_method ++ " stream " ++ id) r (λ status body.
              if nat_eq status 404
              then stream_req post_method base id config
                  (λ status' body'. ret (ensured id status' body'))
              else ret (ensured id status body)))
    by_reply (no_request e) = tt
    by_reply (no_response e) = tt
    by_reply (response status body) = by_status status body (number_cases status 404)

-- What the result of a deletion says of the reply.
abbrev pub FitsDeletion : HttpReply → Result (Unit {0}) → Type 0
FitsDeletion (response status body) (ok u) = (status ≡ 404) ⊎ (status < 300)
FitsDeletion (response status body) (err (plain e)) = (status ≢ 404) × (300 ≤ status)
FitsDeletion (response status body) _ = ⊥
FitsDeletion _ (err (plain e)) = Unit
FitsDeletion _ _ = ⊥

-- What the result of a read of the status says of the reply, and of the decoder.
abbrev pub FitsStatus : (String → Fallible Bool) → HttpReply → Result Bool → Type 0
FitsStatus decode (response status body) (ok active) =
    (status < 300) × (decode body ≡ Fallible.ok active)
FitsStatus decode (response status body) (err stream_not_found) = status ≡ 404
FitsStatus decode (response status body) (err (plain e)) = status ≢ 404
FitsStatus decode (response status body) _ = ⊥
FitsStatus decode _ (err (plain e)) = Unit
FitsStatus decode _ _ = ⊥

-- one request with this method, without a body
abbrev pub Single : Method → String → Sent → Request → Type 0
Single method url sent q = (sent ≡ []) × (q ≡ record { method = method; url = url; sent = none })

deleted-Fits :
    (id : String) (status : ℕ) (body : String)
    → FitsDeletion (response status body) (deleted id status body)
unfolding deleted
deleted-Fits id status body = elim (number_cases status 404) [
  | inl e ↦ rw (e, deleted) (inl refl)
  | inr e ↦ elim (Bool-cases (leb 300 status)) [
    | inl l ↦ rw (e, l, deleted) (λ k. ground arith, ground arith)
    | inr l ↦ rw (e, l, deleted) (inr (ground arith))
  ]
]

-- `DeleteStream` sends one DELETE, and reports success exactly where the answer is 404 or has a status
-- below 300.
pub delete_stream-Deletes :
    (base id : String)
    → Every
        (Single delete_method (stream_url base id))
        (Last FitsDeletion)
        []
        (delete_stream base id)
unfolding delete_stream
delete_stream-Deletes base id = ((refl, refl), by_reply)
  where
    by_reply :
        (r : HttpReply)
        → Every
            (Single delete_method (stream_url base id))
            (Last FitsDeletion)
            (record {
              call = record { method = delete_method; url = stream_url base id; sent = none };
              reply = r;
            }
              ∷ [])
            (on_response ("DELETE stream " ++ id) r (λ status body. ret (deleted id status body)))
    by_reply (no_request e) = tt
    by_reply (no_response e) = tt
    by_reply (response status body) = deleted-Fits id status body

read_status-Fits :
    (decode : String → Fallible Bool) (id : String) (status : ℕ) (body : String)
    → FitsStatus decode (response status body) (read_status decode id status body)
unfolding read_status
read_status-Fits decode id status body = elim (number_cases status 404) [
  | inl e ↦ rw (e, read_status) refl
  | inr e ↦ elim (Bool-cases (leb 300 status)) [
    | inl l ↦ rw (e, l, read_status) (λ k. ground arith)
    | inr l ↦ rw (e, l, read_status) (by_decoding (ground arith) (ground arith) (decode body) refl)
  ]
]
  where
    by_decoding :
        status < 300
        → status ≢ 404
        → (d : Fallible Bool) → decode body ≡ d
        → FitsStatus decode (response status body) (decoded ("decode stream " ++ id ++ " status") d)
    by_decoding low found (Fallible.ok active) e = (low, e)
    by_decoding low found (Fallible.err text) e = found

-- `GetStreamStatus` sends one GET; it reports that the stream is missing exactly where the answer is
-- 404, and an activity only where the status is below 300 and the body decodes to it.
pub get_stream_status-Reads :
    (decode : String → Fallible Bool) (base id : String)
    → Every
        (Single get_method (stream_url base id))
        (Last (FitsStatus decode))
        []
        (get_stream_status decode base id)
unfolding get_stream_status
get_stream_status-Reads decode base id = ((refl, refl), by_reply)
  where
    by_reply :
        (r : HttpReply)
        → Every
            (Single get_method (stream_url base id))
            (Last (FitsStatus decode))
            (record {
              call = record { method = get_method; url = stream_url base id; sent = none };
              reply = r;
            }
              ∷ [])
            (on_response
              ("GET stream " ++ id)
              r
              (λ status body. ret (read_status decode id status body)))
    by_reply (no_request e) = tt
    by_reply (no_response e) = tt
    by_reply (response status body) = read_status-Fits decode id status body
