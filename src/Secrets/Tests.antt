-- ===== src/Secrets/Tests.antt =====
-- Runs of the substitution, and the theorems at small texts.
use rpc_operator.Prelude.{◌≡◌, ◌↔◌, some, refl, [], ◌∷◌}
use rpc_operator.Api.{SecretRef}
use rpc_operator.Secrets.{Match, match_at, Values, substitute_secrets}
use rpc_operator.Secrets.Reading.{IsVariable}
use rpc_operator.Secrets.Laws.{Rewritten, substitute_secrets-Rewritten, match_at_iff}

abbrev ref : SecretRef
ref = record { env_var = "PW"; secret_name = "db"; key = "password" }

substituted :
    substitute_secrets "a: ${PW:old} b: ${HOST:${!x}} c: ${!json(\"PW\")}"
      (ref ∷ [])
      (("PW", "s3cret") ∷ [])
    ≡ "a: ${PW:s3cret} b: ${HOST:${!x}} c: ${!json(\"PW\")}"
unfolding substitute_secrets
substituted = refl

abbrev bound : Values
bound = ("PW", "s3cret") ∷ []

substitute_secrets-Rewritten_example :
    Rewritten bound "a: ${PW:old}" (substitute_secrets "a: ${PW:old}" (ref ∷ []) bound)
substitute_secrets-Rewritten_example =
    substitute_secrets-Rewritten "a: ${PW:old}" ref [] ("PW", "s3cret") []

abbrev host : Match
host = record { name = "HOST"; text = "${HOST:x}"; rest = " b" }

match_at_iff_example : (match_at "${HOST:x} b" ≡ some host) ↔ IsVariable "${HOST:x} b" host
match_at_iff_example = match_at_iff "${HOST:x} b" host

host_found : match_at "${HOST:x} b" ≡ some host
unfolding match_at
host_found = refl
