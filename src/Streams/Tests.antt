-- ===== src/Streams/Tests.antt =====
-- Runs of the streams client, and its theorems at concrete inputs.
use rpc_operator.Prelude.{String, ◌≡◌, refl, Bool, true, some, [], ◌∷◌}
use rpc_operator.Prelude.Find.{contains_text, trim_slashes}
use rpc_operator.Prelude.Texts.{strip_prefix}
use rpc_operator.Fallible.{Fallible}
use rpc_operator.Effects.{Every, run}
use rpc_operator.Streams.{
  put_method, post_method, delete_method, get_method, Request, HttpReply, response, ok,
  config_rejected, stream_url, stream_req, ensured, ensure_stream, delete_stream, get_stream_status,
}
use rpc_operator.Streams.Laws.{
  Last, Fits, Upserts, ensure_stream-Upserts, Single, FitsDeletion, delete_stream-Deletes,
  FitsStatus, get_stream_status-Reads,
}

-- an instance that does not know the stream yet
abbrev answer : Request → HttpReply
answer q = elim q.method [ put_method ↦ response 404 "" | _ ↦ response 200 "" ]

created : run answer [] (ensure_stream "http://etl-0:4195/" "orders" "input: {}") ≡ (
  record { method = post_method; url = "http://etl-0:4195/streams/orders"; sent = some "input: {}" }
      ∷ record {
        method = put_method;
        url = "http://etl-0:4195/streams/orders";
        sent = some "input: {}";
      }
      ∷ [],
  ok tt,
)
unfolding ensure_stream stream_req ensured config_rejected stream_url trim_slashes
created = refl

gateway :
    (config_rejected 502 "Failed: failed to init output" ≡ true) × (config_rejected 422 "" ≡ true)
unfolding config_rejected contains_text strip_prefix
gateway = (refl, refl)

ensure_stream-Upserts_example :
    Every
      (Upserts "http://etl-0:4195" "orders" "input: {}")
      (Last Fits)
      []
      (ensure_stream "http://etl-0:4195" "orders" "input: {}")
ensure_stream-Upserts_example = ensure_stream-Upserts "http://etl-0:4195" "orders" "input: {}"

delete_stream-Deletes_example :
    Every
      (Single delete_method (stream_url "http://etl-0:4195" "orders"))
      (Last FitsDeletion)
      []
      (delete_stream "http://etl-0:4195" "orders")
delete_stream-Deletes_example = delete_stream-Deletes "http://etl-0:4195" "orders"

abbrev decode : String → Fallible Bool
decode body = Fallible.ok true

get_stream_status-Reads_example :
    Every
      (Single get_method (stream_url "http://etl-0:4195" "orders"))
      (Last (FitsStatus decode))
      []
      (get_stream_status decode "http://etl-0:4195" "orders")
get_stream_status-Reads_example = get_stream_status-Reads decode "http://etl-0:4195" "orders"
