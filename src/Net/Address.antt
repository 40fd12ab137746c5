-- ===== src/Net/Address.antt =====
-- `read_socket_addr` and `SocketAddr::from_str`.
use polychrome_php.Prelude.{ℕ, true, List, [], Option, none, some}
use polychrome_php.Net.Number.{Parser, ◌>>=◌, ◌>>◌, ret, read_given_char, read_number}
use polychrome_php.Net.Ip.{Ipv4Addr, read_ipv4_addr, read_ipv6_addr}

pub data SocketAddr : Type 0 where
  v4 : Ipv4Addr → ℕ → SocketAddr
  v6 : List ℕ → ℕ → ℕ → SocketAddr

-- `SocketAddr::port`.
unfoldable pub port : SocketAddr → ℕ
port (v4 ip p) = p
port (v6 ip scope p) = p

read_port : Parser ℕ
read_port = do read_given_char b':'; read_number 10 none 65535 true

-- `%scope`, which may be absent.
read_scope_id : Parser ℕ
read_scope_id s = elim scope [ none ↦ some (0, s) | some r ↦ some r ]
  where
    scope : Option (ℕ × List ℕ)
    scope = (do read_given_char b'%'; read_number 10 none 4294967295 true) s

read_socket_addr_v4 : Parser SocketAddr
unfolding read_port
read_socket_addr_v4 = do ip ← read_ipv4_addr; p ← read_port; ret (v4 ip p)

read_socket_addr_v6 : Parser SocketAddr
unfolding read_port read_scope_id
read_socket_addr_v6 = do
  read_given_char b'['
  ip ← read_ipv6_addr
  scope ← read_scope_id
  read_given_char b']'
  p ← read_port
  ret (v6 ip scope p)

read_socket_addr : Parser SocketAddr
unfolding read_socket_addr_v4 read_socket_addr_v6
read_socket_addr s = elim (read_socket_addr_v4 s) [ some r ↦ some r | none ↦ read_socket_addr_v6 s ]

-- The whole text must be read.
unfoldable pub parse_socket_addr : List ℕ → Option SocketAddr
unfolding read_socket_addr
parse_socket_addr s = elim (read_socket_addr s) [ some (addr, []) ↦ some addr | _ ↦ none ]
