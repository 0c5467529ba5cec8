-- ===== src/Controller/Errors.antt =====
-- The tests of an error's kind (apierrors.IsNotFound, and errors.Is with streams.ErrStreamNotFound), read
-- as equations.
use rpc_operator.Prelude.{◌≡◌, ◌≢◌, refl, true, false}
use rpc_operator.Controller.Calls.{
  ErrorKind, Error, not_found, stream_not_found, is_not_found, is_stream_not_found,
}

pub is_not_found-kind : (e : Error) → is_not_found e ≡ true → e.kind ≡ not_found
is_not_found-kind e h = by_kind e.kind h
  where
    by_kind : (k : ErrorKind) → (elim k [ not_found ↦ true | _ ↦ false ]) ≡ true → k ≡ not_found
    by_kind not_found h' = refl
    by_kind _ h' = cc

pub is_stream_not_found-kind :
    (e : Error) → is_stream_not_found e ≡ false → e.kind ≢ stream_not_found
is_stream_not_found-kind e h same = by_kind e.kind same h
  where
    by_kind :
        (k : ErrorKind)
        → k ≡ stream_not_found
        → (elim k [ stream_not_found ↦ true | _ ↦ false ]) ≢ false
    by_kind k same' h' = cc (rw same' at h')

pub is_stream_not_found-true :
    (e : Error) → is_stream_not_found e ≡ true → e.kind ≡ stream_not_found
is_stream_not_found-true e h = by_kind e.kind h
  where
    by_kind :
        (k : ErrorKind)
        → (elim k [ stream_not_found ↦ true | _ ↦ false ]) ≡ true
        → k ≡ stream_not_found
    by_kind stream_not_found h' = refl
    by_kind _ h' = cc
