-- ===== src/Net/Http.antt =====
-- gnet/ghttp/error_wrapper.go: a handler's error as the response. The response writer of net/http and
-- encoding/json are arguments.
pub mod Status
mod Tests
use gokits.Prelude.{ℕ, Bool, true, false, Option, none, some, List, []}
use gokits.Prelude.Dict.{insert}
use gokits.Prelude.Text.{Bytes, eq_of_text}

-- `ErrorResponse`, with parameters of type `V`.
pub record ErrorResponse (V : Type 0) : Type 0 where
  pub status_code : ℕ
  pub error_code : Bytes
  pub error_message : Bytes
  pub error_params : List (Bytes × V)

abbrev pub new_error_res : {V : Type 0} → ℕ → ErrorResponse V
new_error_res n = record { status_code = n; error_code = []; error_message = []; error_params = [] }

abbrev pub with_msg : {V : Type 0} → Bytes → ErrorResponse V → ErrorResponse V
with_msg msg er = record er { error_message = msg }

abbrev pub with_param : {V : Type 0} → Bytes → V → ErrorResponse V → ErrorResponse V
with_param key value er = record er { error_params = insert key value er.error_params }

-- What a handler returns: nil, an error response, or another error.
pub data Outcome (V : Type 0) : Type 0 where
  fine : Outcome V
  response : ErrorResponse V → Outcome V
  other : Outcome V

-- A response writer: `WriteHeader`, and `Write` with whether it succeeded.
pub record Writer (W : Type 0) : Type 0 where
  pub write_header : ℕ → W → W
  pub write : Bytes → W → Bool × W

module _ {V : Type 0} {W : Type 0} (http : Writer W)
    (marshal : ErrorResponse V → Option Bytes) where
  -- `json.NewEncoder(w).Encode`: nothing is written of what cannot be encoded.
  abbrev pub encode : Option Bytes → W → Bool × W
  encode none w = (false, w)
  encode (some text) w = http.write text w

  abbrev pub encoded : Bool × W → W
  encoded (true, w) = w
  encoded (false, w) = http.write_header 500 w

  abbrev pub answered : Outcome V → W → W
  answered fine w = w
  answered (response er) w = encoded (encode (marshal er) (http.write_header er.status_code w))
  answered other w = http.write_header 500 w

  -- `WrapperHandler`: `handler` is the wrapped function at the request.
  pub wrapper_handler : (W → Outcome V × W) → W → W
  wrapper_handler handler w = answered (handler w).0 (handler w).1
