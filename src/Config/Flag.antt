-- ===== src/Config/Flag.antt =====
-- src/config.rs: the texts that `parse` compares arguments and keys with.
use polychrome_php.Bytes.{Bytes, codes}

abbrev pub help : Bytes
help = codes "--help"

abbrev pub help_short : Bytes
help_short = codes "-h"

abbrev pub version : Bytes
version = codes "--version"

abbrev pub version_short : Bytes
version_short = codes "-v"

abbrev pub no_preload : Bytes
no_preload = codes "--no-preload"

abbrev pub root : Bytes
root = codes "--root"

abbrev pub listen : Bytes
listen = codes "--listen"

abbrev pub workers : Bytes
workers = codes "--workers"

abbrev pub request_timeout : Bytes
request_timeout = codes "--request-timeout"

abbrev pub ini : Bytes
ini = codes "-c"

abbrev pub define : Bytes
define = codes "-d"

abbrev pub unix : Bytes
unix = codes "unix:"

abbrev pub preload_key : Bytes
preload_key = codes "opcache.preload"

abbrev pub preload_user_key : Bytes
preload_user_key = codes "opcache.preload_user"
