-- ===== src/Streams.antt =====
-- The client of the streams API of an instance (internal/streams/client.go). A method is a program over
-- HTTP requests; the decoding of JSON bodies is a parameter.
pub mod Laws
mod Tests
use Prim.Native.String.{String, ◌++◌}
use rpc_operator.Prelude.{
  ℕ, Bool, true, false, ◌&&◌, ◌||◌, Option, none, some, List, if◌then◌else◌, ltb, leb, nat_eq,
}
use rpc_operator.Prelude.Decimal.{itoa}
use rpc_operator.Prelude.Find.{contains_text, trim_slashes}
use rpc_operator.Fallible
use rpc_operator.Fallible.{Fallible}
use rpc_operator.Effects.{Prog, ret, ask, ◌>>=◌}

pub data Method : Type 0 where
  put_method post_method delete_method get_method : Method

-- `sent` is the request's body, if it has one.
pub record Request : Type 0 where
  pub method : Method
  pub url : String
  pub sent : Option String

-- `no_request` is a failure of http.NewRequestWithContext, `no_response` one of Client.Do.
pub data HttpReply : Type 0 where
  no_request no_response : String → HttpReply
  response : ℕ → String → HttpReply

-- `rejected` is *ConfigRejectedError, `stream_not_found` is ErrStreamNotFound, and `plain` any other.
pub data StreamsError : Type 0 where
  rejected : String → ℕ → String → StreamsError
  stream_not_found : StreamsError
  plain : String → StreamsError

pub data Result (A : Type 0) : Type 0 where
  ok : A → Result A
  err : StreamsError → Result A

abbrev pub Http : Type 0 → Type 0
Http A = Prog Request (λ _. HttpReply) A

-- `ConfigRejectedError.Error`
unfoldable pub rejection_text : String → ℕ → String → String
rejection_text id status body = "ensure stream " ++ id ++ ": status " ++ itoa status ++ ": " ++ body

unfoldable pub config_rejected : ℕ → String → Bool
config_rejected status body =
    if leb 400 status && ltb status 500
    then true
    else if nat_eq status 502 && contains_text "failed to init" body
    then true
    else false

unfoldable pub stream_url : String → String → String
stream_url base id = trim_slashes base ++ "/streams/" ++ id

unfoldable pub cache_url : String → String → String
cache_url base label = trim_slashes base ++ "/resources/cache/" ++ label

abbrev pub method_name : Method → String
method_name put_method = "PUT"
method_name post_method = "POST"
method_name delete_method = "DELETE"
method_name get_method = "GET"

-- what follows a request: its failure, or a status and a body
abbrev pub on_response :
    {A : Type 0} → String → HttpReply → (ℕ → String → Http (Result A)) → Http (Result A)
on_response what (no_request e) k = ret (err (plain e))
on_response what (no_response e) k = ret (err (plain (what ++ ": " ++ e)))
on_response what (response status body) k = k status body

-- `streamReq`, with what follows it
unfoldable pub stream_req :
    {A : Type 0}
    → Method
    → String
    → String
    → String
    → (ℕ → String → Http (Result A))
    → Http (Result A)
stream_req method base id config k =
    ask (record { method = method; url = stream_url base id; sent = some config })
      λ r. on_response (method_name method ++ " stream " ++ id) r k

-- what the status and the body of the last response mean
unfoldable pub ensured : String → ℕ → String → Result (Unit {0})
ensured id status body =
    if config_rejected status body
    then err (rejected id status body)
    else if leb 300 status
    then err (plain (rejection_text id status body))
    else ok tt

-- PUT, and POST where the stream does not exist
unfoldable pub ensure_stream : String → String → String → Http (Result (Unit {0}))
ensure_stream base id config = stream_req put_method base id config λ status body.
    if nat_eq status 404
    then stream_req post_method base id config (λ status' body'. ret (ensured id status' body'))
    else ret (ensured id status body)

unfoldable pub deleted : String → ℕ → String → Result (Unit {0})
deleted id status body =
    if nat_eq status 404
    then ok tt
    else if leb 300 status
    then err (plain ("DELETE stream " ++ id ++ ": status " ++ itoa status ++ ": " ++ body))
    else ok tt

unfoldable pub delete_stream : String → String → Http (Result (Unit {0}))
delete_stream base id =
    ask (record { method = delete_method; url = stream_url base id; sent = none })
      λ r. on_response ("DELETE stream " ++ id) r (λ status body. ret (deleted id status body))

-- POST alone: the API has no other method for cache resources
unfoldable pub ensure_cache_resource : String → String → String → Http (Result (Unit {0}))
ensure_cache_resource base label config =
    ask (record { method = post_method; url = cache_url base label; sent = some config })
      λ r. on_response ("POST cache resource " ++ label) r λ status body. ret (
        if config_rejected status body
        then err (rejected label status body)
        else if leb 300 status
        then err
            (plain ("POST cache resource " ++ label ++ ": status " ++ itoa status ++ ": " ++ body))
        else ok tt)

-- a no-op
unfoldable pub delete_cache_resource : String → String → Http (Result (Unit {0}))
delete_cache_resource base label = ret (ok tt)

abbrev pub decoded : {A : Type 0} → String → Fallible A → Result A
decoded what (Fallible.ok a) = ok a
decoded what (Fallible.err e) = err (plain (what ++ ": " ++ e))

-- `decode` reads the field `active` of the body
unfoldable pub read_status : (String → Fallible Bool) → String → ℕ → String → Result Bool
read_status decode id status body =
    if nat_eq status 404
    then err stream_not_found
    else if leb 300 status
    then err (plain ("GET stream " ++ id ++ ": status " ++ itoa status ++ ": " ++ body))
    else decoded ("decode stream " ++ id ++ " status") (decode body)

unfoldable pub get_stream_status : (String → Fallible Bool) → String → String → Http (Result Bool)
get_stream_status decode base id =
    ask (record { method = get_method; url = stream_url base id; sent = none })
      λ r.
        on_response ("GET stream " ++ id) r (λ status body. ret (read_status decode id status body))

-- `decode` reads the keys of the body
unfoldable pub list_streams :
    (String → Fallible (List String)) → String → Http (Result (List String))
list_streams decode base =
    ask (record { method = get_method; url = trim_slashes base ++ "/streams"; sent = none })
      λ r. on_response "GET streams" r λ status body. ret (
        if leb 300 status
        then err (plain ("GET streams: status " ++ itoa status ++ ": " ++ body))
        else decoded "decode streams" (decode body))
