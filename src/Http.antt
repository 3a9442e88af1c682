-- ===== src/Http.antt =====
-- backend/pkg/httpx/response.go: what a handler answers. The request id in `meta` is left out.
use cross_border_logistics.Prelude.{ℕ, String}

-- `SuccessResponse`, the plain `{"success": true}` of the callbacks, and `ErrorResponse`
pub data Response (A : Type 0) : Type 0 where
  success : ℕ → A → Response A
  acknowledged : Response A
  failure : ℕ → String → String → Response A

abbrev pub validation_error : String
validation_error = "VALIDATION_ERROR"

abbrev pub not_found : String
not_found = "NOT_FOUND"

abbrev pub conflict : String
conflict = "CONFLICT"

abbrev pub invalid_state_code : String
invalid_state_code = "INVALID_STATE"

abbrev pub dependency_error : String
dependency_error = "DEPENDENCY_ERROR"

abbrev pub internal_error : String
internal_error = "INTERNAL_ERROR"

abbrev pub internal_message : String
internal_message = "an internal error occurred"

abbrev pub invalid_json : String
invalid_json = "request body must be valid JSON"

abbrev pub one_object : String
one_object = "request body must contain one JSON object"

-- What is read of a body by a decoder that refuses unknown fields: a text that it refuses, a value
-- with more behind it, or one value.
pub data Body (A : Type 0) : Type 0 where
  refused : Body A
  followed : Body A
  one_value : A → Body A
