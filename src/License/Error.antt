-- ===== src/License/Error.antt =====
-- apps/console/src-tauri/generic-license-tauri/src/error.rs.
use tunnara.Prelude.{String}
use tunnara.Prelude.Text.{◌++◌}

pub data LicenseError : Type 0 where
  config http invalid serde io endpoint_unavailable registration_file : String → LicenseError
  -- `Structured { step, reason_code, message }`
  structured : String → String → String → LicenseError

-- `Display`, from the `#[error(…)]` attributes.
pub to_string : LicenseError → String
to_string (config m) = "configuração inválida: " ++ m
to_string (http m) = "erro HTTP: " ++ m
to_string (invalid m) = "licença inválida: " ++ m
to_string (serde m) = "erro de serialização: " ++ m
to_string (io m) = "erro de IO: " ++ m
to_string (endpoint_unavailable m) = "endpoint indisponível: " ++ m
to_string (registration_file m) = "erro no arquivo de registro: " ++ m
to_string (structured step reason m) = "falha na etapa " ++ step ++ " (" ++ reason ++ "): " ++ m

pub step : LicenseError → String
step (structured s r m) = s
step (registration_file m) = "registration_file"
step (endpoint_unavailable m) = "resolve_activation"
step (config m) = "config"
step (http m) = "http"
step (invalid m) = "validation"
step (serde m) = "serialization"
step (io m) = "io"

pub reason_code : LicenseError → String
reason_code (structured s r m) = r
reason_code (registration_file m) = "REGISTRATION_FILE_ERROR"
reason_code (endpoint_unavailable m) = "ENDPOINT_UNAVAILABLE"
reason_code (config m) = "INVALID_CONFIG"
reason_code (http m) = "HTTP_ERROR"
reason_code (invalid m) = "INVALID_LICENSE"
reason_code (serde m) = "SERDE_ERROR"
reason_code (io m) = "IO_ERROR"

pub record SerializableLicenseError : Type 0 where
  pub step : String
  pub reason_code : String
  pub message : String

-- `From<LicenseError>`
pub serializable : LicenseError → SerializableLicenseError
unfolding step reason_code to_string
serializable e = record { step = step e; reason_code = reason_code e; message = to_string e }
