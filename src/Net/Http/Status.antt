-- ===== src/Net/Http/Status.antt =====
-- gnet/ghttp/error_wrapper.go: the status that the client gets.
use gokits.Prelude.{ℕ, ◌≡◌, refl, ◌∙◌, Bool, true, false, Option, none, some, ap}
use gokits.Prelude.Text.{Bytes}
use gokits.Net.Http.{
  ErrorResponse, Outcome, fine, response, other, Writer, encode, encoded, answered, wrapper_handler,
}

-- The first status stays.
abbrev pub first_of : Option ℕ → Option ℕ → Option ℕ
first_of none next = next
first_of (some n) next = some n

-- Documented behaviour of net/http: `status` is the status sent so far; a later WriteHeader is ignored,
-- and a Write without one sends 200.
pub record IsWriter {W : Type 0} (http : Writer W) (status : W → Option ℕ) : Type 0 where
  pub status_header :
      (n : ℕ) (w : W) → status (http.write_header n w) ≡ first_of (status w) (some n)
  pub status_write :
      (text : Bytes) (w : W) → status (http.write text w).1 ≡ first_of (status w) (some 200)

-- What the wrapper itself would have the client get.
abbrev pub meant : {V : Type 0} → Outcome V → Option ℕ
meant fine = none
meant (response er) = some er.status_code
meant other = some 500

first_of_again :
    (s : Option ℕ) (m n : ℕ) → first_of (first_of s (some m)) (some n) ≡ first_of s (some m)
first_of_again none m n = refl
first_of_again (some k) m n = refl

first_of-none : (s : Option ℕ) → s ≡ first_of s none
first_of-none none = refl
first_of-none (some k) = refl

module _ {V : Type 0} {W : Type 0} {http : Writer W} {status : W → Option ℕ}
    (law : IsWriter http status) (marshal : ErrorResponse V → Option Bytes) where
  kept :
      (m n : ℕ) (s : Option ℕ) (w : W)
      → status w ≡ first_of s (some m)
      → first_of (status w) (some n) ≡ first_of s (some m)
  kept m n s w e = ap (λ t. first_of t (some n)) e ∙ first_of_again s m n

  encoded_status :
      (m : ℕ) (s : Option ℕ) (r : Bool × W)
      → status r.1 ≡ first_of s (some m)
      → status (encoded http marshal r) ≡ first_of s (some m)
  encoded_status m s (true, w) e = e
  encoded_status m s (false, w) e = law.status_header 500 w ∙ kept m 500 s w e

  encode_status :
      (m : ℕ) (s : Option ℕ) (text : Option Bytes) (w : W)
      → status w ≡ first_of s (some m)
      → status (encode http marshal text w).1 ≡ first_of s (some m)
  encode_status m s none w e = e
  encode_status m s (some text) w e = law.status_write text w ∙ kept m 200 s w e

  answered_status :
      (o : Outcome V) (w : W) → status (answered http marshal o w) ≡ first_of (status w) (meant o)
  answered_status fine w = first_of-none (status w)
  answered_status (response er) w =
      let w1 : W = http.write_header er.status_code w in
      encoded_status er.status_code (status w) (encode http marshal (marshal er) w1) (
        encode_status er.status_code (status w) (marshal er) w1
          (law.status_header er.status_code w))
  answered_status other w = law.status_header 500 w

-- The client gets the status that the handler sent itself, or else that of the error response, 500 for
-- another error, and none for no error. When an error response cannot be encoded or written, it is
-- still that response's status, and not 500.
pub wrapper_handler_lem :
    {V : Type 0} {W : Type 0} {http : Writer W} {status : W → Option ℕ}
    (marshal : ErrorResponse V → Option Bytes) (handler : W → Outcome V × W) (w : W)
    → IsWriter http status
    → status (wrapper_handler http marshal handler w)
      ≡ first_of (status (handler w).1) (meant (handler w).0)
unfolding wrapper_handler
wrapper_handler_lem marshal handler w law = answered_status law marshal (handler w).0 (handler w).1
