-- ===== src/Net/Http/Tests.antt =====
-- gnet/ghttp/error_wrapper.go: tests and examples.
use gokits.Prelude.{ℕ, ◌≡◌, refl, true, Option, none, some}
use gokits.Prelude.Text.{Bytes, text}
use gokits.Net.Http.{
  ErrorResponse, response, Writer, wrapper_handler, new_error_res, with_msg, with_param,
}
use gokits.Net.Http.Status.{IsWriter, first_of, wrapper_handler_lem}

-- A writer that keeps the status only.
abbrev statuses : Writer (Option ℕ)
statuses = record {
  write_header = λ n w. first_of w (some n);
  write = λ s w. (true, first_of w (some 200));
}

statuses-IsWriter : IsWriter statuses (λ w. w)
statuses-IsWriter = record { status_header = λ n w. refl; status_write = λ s w. refl }

abbrev missing : ErrorResponse ℕ
missing = with_param (text "id") 7 (with_msg (text "no such user") (new_error_res 404))

abbrev unencodable : ErrorResponse ℕ → Option Bytes
unencodable er = none

wrapper_handler_lem_example :
    wrapper_handler statuses unencodable (λ w. (response missing, w)) none ≡ some 404
wrapper_handler_lem_example =
    wrapper_handler_lem unencodable (λ w. (response missing, w)) none statuses-IsWriter
