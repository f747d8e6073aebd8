-- ===== src/Errors/Io.antt =====
-- src/errors.rs: the errors of other crates that become a `ServiceError`. Their texts are parameters.
use Prim.Native.String.{◌++◌ as join}
use integration_home_assista.Prelude.{String}
use integration_home_assista.Errors.{
  ServiceError, internal_server_error, serialization_error, bad_request, service_unavailable,
}

-- `std::io::ErrorKind`; `other_kind` is any variant that the code does not name.
pub data ErrorKind : Type 0 where
  not_found already_exists invalid_input invalid_data : ErrorKind
  connection_refused connection_reset connection_aborted not_connected : ErrorKind
  addr_in_use addr_not_available timed_out : ErrorKind
  broken_pipe would_block write_zero interrupted unsupported unexpected_eof : ErrorKind
  out_of_memory other other_kind : ErrorKind

-- `std::io::Error`, with the texts of `{}` and of `{:?}`.
pub record IoError : Type 0 where
  pub kind : ErrorKind
  pub display : String
  pub debug : String

unfoldable of_kind : ErrorKind → String → String → ServiceError
of_kind not_found text debug = ServiceError.not_found text
of_kind already_exists text debug = bad_request text
of_kind invalid_input text debug = bad_request text
of_kind invalid_data text debug = bad_request text
of_kind connection_refused text debug = service_unavailable text
of_kind connection_reset text debug = service_unavailable text
of_kind connection_aborted text debug = service_unavailable text
of_kind not_connected text debug = service_unavailable text
of_kind addr_in_use text debug = service_unavailable text
of_kind addr_not_available text debug = service_unavailable text
of_kind timed_out text debug = service_unavailable text
of_kind _ text debug = internal_server_error debug

-- `From<std::io::Error>`
unfoldable pub from_io_error : IoError → ServiceError
unfolding of_kind
from_io_error e = of_kind e.kind e.display e.debug

-- `From` of `MailboxError`, `serde_json::Error`, `strum::ParseError`, `SendError` and
-- `url::ParseError`, from the text of `{:?}` of the first and the fourth, and of `{}` of the others.
unfoldable pub from_mailbox_error : String → ServiceError
from_mailbox_error debug = internal_server_error (join "Internal message error: " debug)

unfoldable pub from_json_error : String → ServiceError
from_json_error display = serialization_error display

unfoldable pub from_strum_error : String → ServiceError
from_strum_error display = serialization_error display

unfoldable pub from_send_error : String → ServiceError
from_send_error debug = internal_server_error (join "Error sending internal message: " debug)

unfoldable pub from_url_error : String → ServiceError
from_url_error display = bad_request display
