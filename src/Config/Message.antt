-- ===== src/Config/Message.antt =====
-- src/config.rs: the words of the errors of `parse`.
use polychrome_php.Prelude.{◌++◌}
use polychrome_php.Bytes.{Bytes, codes}
use polychrome_php.Config.{
  Error, options_not_utf8, unknown_option, missing_value, invalid_utf8_value, socket_not_absolute,
  listen_not_address, listen_port_zero, workers_range, timeout_range, define_form, define_invalid,
  define_reserved, root_error, root_not_directory, ini_error, unreachable,
}

-- `unreachable` is the panic of `unreachable!()`.
pub message : Error → Bytes
message options_not_utf8 = codes "options must be valid UTF-8"
message (unknown_option arg) = codes "unknown option: " ++ arg
message (missing_value arg) = codes "missing value for " ++ arg
message (invalid_utf8_value arg) = codes "invalid UTF-8 value for " ++ arg
message socket_not_absolute = codes "Unix socket path must be absolute"
message listen_not_address = codes "--listen requires an IP:port or unix:/absolute/path"
message listen_port_zero = codes "--listen port must be nonzero"
message workers_range = codes "--workers must be between 1 and 4096"
message timeout_range = codes "--request-timeout must be between 1 and 86400 seconds"
message define_form = codes "-d requires KEY=VALUE"
message define_invalid = codes "invalid PHP INI override"
message define_reserved =
    codes
      "Polychrome manages opcache.preload and opcache.preload_user; use --no-preload to disable it"
message (root_error e) = codes "application root: " ++ e
message root_not_directory = codes "application root must be a directory"
message (ini_error e) = codes "PHP INI path: " ++ e
message unreachable = codes "internal error: entered unreachable code"
