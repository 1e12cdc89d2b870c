-- ===== src/Net.antt =====
-- src/net_util.c: the address of a peer, the address to listen at or to connect to, and whether a
-- socket is valid. `getpeername`, `inet_ntop`, `inet_pton`, `atoi` and `getsockopt` belong to the
-- system.
pub mod Addresses
use cosc402_assignment.Base.{
  ℕ, ◌%◌, ◌^◌, Bool, true, false, Option, none, some, List, [], ◌∷◌, ◌==◌, ◌||◌, if◌then◌else◌,
}
use cosc402_assignment.Base.Words.{int_pos, minus_one}
use cosc402_assignment.Message.{strcmp}

-- `sizeof(IPv4)`, `sizeof(IPv6)`, and the families.
abbrev pub ipv4_size : ℕ
ipv4_size = 16

abbrev pub ipv6_size : ℕ
ipv6_size = 28

abbrev pub af_inet : ℕ
af_inet = 2

abbrev pub af_inet6 : ℕ
af_inet6 = 10

-- What `getpeername` answers: an error, or the size of the address and its port.
pub data PeerName : Type 0 where
  failed : ℕ → PeerName
  named : ℕ → ℕ → PeerName

-- What the caller sees: the value returned, `*addr`, and `*port`, if it has been written.
pub record AddrAnswer : Type 0 where
  pub ret : ℕ
  pub addr : Option (List ℕ)
  pub port : Option ℕ

-- The label `error_handle`, with the value that `ret` has there.
abbrev pub error_handle : ℕ → AddrAnswer
error_handle ret = record { ret = ret; addr = none; port = none }

-- `ret` is still 0 when `inet_ntop` fails.
abbrev pub converted : Option (List ℕ) → ℕ → AddrAnswer
converted none port = error_handle 0
converted (some text) port = record { ret = 0; addr = some text; port = some port }

-- `inet_ntop` gets the family and the size of the text's memory; that is the size of the binary
-- address here.
unfoldable pub get_addr_and_port : (ℕ → ℕ → Option (List ℕ)) → PeerName → AddrAnswer
get_addr_and_port inet_ntop (failed ret) = error_handle ret
get_addr_and_port inet_ntop (named addr_size port) =
    if ipv6_size == addr_size
    then converted (inet_ntop af_inet6 addr_size) port
    else if ipv4_size == addr_size
    then converted (inet_ntop af_inet addr_size) port
    else error_handle minus_one

-- "*"
abbrev pub any_host : List ℕ
any_host = 42 ∷ []

abbrev pub inaddr_any : List ℕ
inaddr_any = 0 ∷ 0 ∷ 0 ∷ 0 ∷ []

pub data SockAddr : Type 0 where
  ipv4 : List ℕ → ℕ → SockAddr
  ipv6 : List ℕ → ℕ → SockAddr

-- The functions of the system on texts.
pub record Parsers : Type 0 where
  pub atoi : List ℕ → ℕ
  pub inet_pton4 : List ℕ → Option (List ℕ)
  pub inet_pton6 : List ℕ → Option (List ℕ)

-- `htons` takes a 16-bit number.
abbrev pub port_of : ℕ → ℕ
port_of porti = porti % 2 ^ 16

abbrev pub as_ipv6 : Option (List ℕ) → ℕ → ℕ × Option SockAddr
as_ipv6 none porti = (minus_one, none)
as_ipv6 (some addr6) porti = (0, some (ipv6 addr6 (port_of porti)))

abbrev pub as_ipv4 : Parsers → List ℕ → ℕ → Option (List ℕ) → ℕ × Option SockAddr
as_ipv4 e ip porti none = as_ipv6 (e.inet_pton6 ip) porti
as_ipv4 e ip porti (some addr4) = (0, some (ipv4 addr4 (port_of porti)))

-- What is returned, and `*addr`, if it has been written.
unfoldable pub get_addr_info_from_ip_and_port : Parsers → List ℕ → List ℕ → ℕ × Option SockAddr
get_addr_info_from_ip_and_port e ip port =
    let porti = e.atoi port in
    if int_pos porti
    then (if strcmp any_host ip == 0
        then (0, some (ipv4 inaddr_any (port_of porti)))
        else as_ipv4 e ip porti (e.inet_pton4 ip))
    else (minus_one, none)

-- For what `getsockopt` returns, and the error that it reports.
unfoldable pub is_socket_valid : ℕ → ℕ → ℕ
is_socket_valid ret error = if ret == 0 then (if error == 0 then 0 else minus_one) else minus_one

-- `is_client_connected` of client_info.c asks this of the client's socket.
abbrev pub is_client_connected : ℕ → ℕ → ℕ
is_client_connected ret error = is_socket_valid ret error
