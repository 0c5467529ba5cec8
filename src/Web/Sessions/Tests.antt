-- ===== src/Web/Sessions/Tests.antt =====
-- The theorem on the session store, at a store of two sessions.
use rpc_operator.Prelude.{String, ◌≡◌, refl, none, [], ◌∷◌}
use rpc_operator.Web.Sessions.{Session, Sessions, find, put, delete, get, gc}
use rpc_operator.Web.Sessions.Laws.{HasKeysOnce, IsTtlMap, HasKeysOnce-IsTtlMap}

abbrev early : Session
early = record { state = "s"; code_verifier = "v"; nonce = "n"; cell = 0; created_at = 5 }

abbrev late : Session
late = record { state = "t"; code_verifier = "w"; nonce = "m"; cell = 1; created_at = 90 }

abbrev two : Sessions
two = ("a", early) ∷ ("b", late) ∷ []

swept : gc 60 100 two ≡ ("b", late) ∷ []
unfolding gc
swept = refl

expired : get 60 100 "a" two ≡ (none, ("b", late) ∷ [])
unfolding get find delete
expired = refl

two-HasKeysOnce : HasKeysOnce two
unfolding find
two-HasKeysOnce = (refl, (refl, tt))

HasKeysOnce-IsTtlMap_example :
    IsTtlMap 60 100 two
    × ((id : String) (sess : Session) → HasKeysOnce (put id sess two))
    × ((id : String) → HasKeysOnce (delete id two))
    × ((id : String) → HasKeysOnce (get 60 100 id two).1)
    × HasKeysOnce (gc 60 100 two)
HasKeysOnce-IsTtlMap_example = HasKeysOnce-IsTtlMap 60 100 two two-HasKeysOnce
