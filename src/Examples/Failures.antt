-- ===== src/Examples/Failures.antt =====
-- The theorem on the errors of an index, at one error.
use redp2p_c.Prelude.{◌≡◌, refl, true, ◌∷◌, [], ◌+◌, some, Bytes, codes, arith, length, same_text}
use redp2p_c.Context.{enoent}
use redp2p_c.Index.{JsonObject, Env, respond_error}
use redp2p_c.Index.Tests.{env_at, request_with}
use redp2p_c.Index.Failure.{reply_bytes, respond_error-client_response}
use redp2p_c.Http.Response.{silent, Wire, failed, http_map_error, an_object, client_response}

abbrev by_bytes : Wire
by_bytes = record { ending = silent; chunk = λ k. 0; fits_fd_set = true }

abbrev refusal : Bytes
refusal = codes "{\"ok\":false,\"error\":\"not_found\"}"

abbrev refused : JsonObject
refused = request_with ((codes "error", codes "not_found") ∷ []) []

abbrev serializing : Env
serializing = record (env_at 100) { serialization_size = λ v. length refusal + 1 }

respond_error-client_response_example :
    (reply : Bytes) × (reply_bytes
        (λ v. refusal)
        (respond_error serializing 404 (codes "not_found"))
      ≡ some reply)
    × (client_response (λ text. an_object refused) by_bytes reply ≡ failed enoent)
unfolding same_text http_map_error
respond_error-client_response_example =
    respond_error-client_response by_bytes refl (λ v. refusal) (λ text. an_object refused)
      serializing 404 (codes "not_found") refused (omega arith) (omega arith) (omega arith)
      (omega arith) refl refl refl (omega arith) refl refl
