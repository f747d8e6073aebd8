-- ===== src/Program.antt =====
-- src/main.rs and what it calls below src/util and src/server: the start of the program. The operating
-- system is a parameter: its answers to reads and to `bind`.
pub mod Certificates
pub mod Listeners
pub mod Metadata
pub mod Network
pub mod Publish
pub mod Start
use Prim.Native.String.{◌++◌ as join}
use integration_home_assista.Prelude.{String, Bool, Option, none, some, str_eq, ◌||◌, false}
use integration_home_assista.Errors.Io.{IoError, ErrorKind}

-- How a step of the start ends: it goes on, returns an `io::Error`, calls `exit` or panics.
pub data Startup (A : Type 0) : Type 0 where
  done : A → Startup A
  io_error : IoError → Startup A
  exits : Startup A
  panics : Startup A

infixl 5 ◌>>=◌
abbrev pub ◌>>=◌ : {A B : Type 0} → Startup A → (A → Startup B) → Startup B
done a >>= next = next a
io_error e >>= next = io_error e
exits >>= next = exits
panics >>= next = panics

-- `bool_from_env` of src/util/env.rs
unfoldable pub bool_from_env : (String → Option String) → String → Bool
bool_from_env var key = elim (var key) [ none ↦ false | some v ↦ str_eq v "true" || str_eq v "1" ]

-- `io::Error::new`, with the name of the kind, which `{:?}` prints.
abbrev pub new_error : ErrorKind → String → String → IoError
new_error kind name text = record {
  kind = kind;
  display = text;
  debug = join "Custom { kind: " (join name (join ", error: \"" (join text "\" }")));
}
