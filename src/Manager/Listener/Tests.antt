-- ===== src/Manager/Listener/Tests.antt =====
-- src/manager.rs: `Listener` by evaluation, and its theorems at concrete inputs.
use polychrome_php.Prelude.{◌≡◌, refl, ◌≢◌, ◌++◌, some, ok, err, arith}
use polychrome_php.Bytes.{Bytes, codes, eq_bytes, strip_prefix}
use polychrome_php.Manager.Listener.{
  Listener, unix_prefix, owns, drop_socket, drop, permit, identify, bind_unix, bind_tcp, bind,
}
use polychrome_php.Manager.Listener.Laws.{BindOutcome, bind-BindOutcome, drop-bind, drop_foreign}
use polychrome_php.Manager.Listener.Disk.{
  Disk, put, fresh_file, disk_calls, disk-IsUnix, frozen_calls, frozen-IsUnix, empty_disk,
}

runs : Unit {0}
unfolding eq_bytes strip_prefix owns drop_socket drop permit identify bind_unix bind_tcp bind
runs = tt

abbrev socket : Bytes
socket = codes "/run/p.sock"

abbrev listening : Listener
listening = record { fd = 3; socket = some (socket, fresh_file) }

binds_socket : (bind disk_calls (unix_prefix ++ socket) empty_disk).0 ≡ ok listening
unfolding runs
binds_socket = refl

-- The mode cannot be set, the removal fails too, and the socket stays.
leaves_socket :
    ((bind frozen_calls (unix_prefix ++ socket) empty_disk).0 ≡ err (codes "EROFS"))
    × ((bind frozen_calls (unix_prefix ++ socket) empty_disk).1 socket ≡ some fresh_file)
unfolding runs
leaves_socket = (refl, refl)

bind-BindOutcome_example :
    BindOutcome frozen_calls socket empty_disk
      (bind frozen_calls (unix_prefix ++ socket) empty_disk)
bind-BindOutcome_example = bind-BindOutcome frozen_calls frozen-IsUnix socket empty_disk

drop-bind_example :
    drop disk_calls listening (bind disk_calls (unix_prefix ++ socket) empty_disk).1
    ≡ (disk_calls.remove_file socket (bind disk_calls (unix_prefix ++ socket) empty_disk).1).1
drop-bind_example = drop-bind disk_calls disk-IsUnix socket empty_disk listening binds_socket

-- Another server has replaced the socket.
abbrev replaced : Disk
replaced = put socket (some (record { dev = 1; ino = 43 })) empty_disk

other_file : disk_calls.symlink_metadata socket replaced ≢ ok fresh_file
unfolding runs
other_file h = ground arith

drop_foreign_example : drop disk_calls listening replaced ≡ replaced
drop_foreign_example = drop_foreign disk_calls listening socket fresh_file replaced refl other_file
