-- ===== src/Tests/Addresses.antt =====
-- The theorems on addresses, applied to functions of the system made for the purpose.
use cosc402_assignment.Base.{
  ℕ, ◌≡◌, refl, Option, none, some, List, [], ◌∷◌, ltb, ◌==◌, if◌then◌else◌,
}
use cosc402_assignment.Base.Lists.{length, replicate}
use cosc402_assignment.Net.{
  ipv6_size, named, get_addr_and_port, Parsers, get_addr_info_from_ip_and_port, inaddr_any, ipv4,
}
use cosc402_assignment.Net.Addresses.{
  IsNtop, v6, get_addr_and_port-IsNtop, Resolves, get_addr_info_from_ip_and_port-Resolves,
}

-- "1.2.3.4", and an address of 39 characters, "f" for each.
abbrev texts : ℕ → List ℕ
texts family =
    if family == 2 then b'1' ∷ b'.' ∷ b'2' ∷ b'.' ∷ b'3' ∷ b'.' ∷ b'4' ∷ [] else replicate 39 b'f'

abbrev small_ntop : ℕ → ℕ → Option (List ℕ)
small_ntop family size = if ltb (length (texts family)) size then some (texts family) else none

small_ntop-IsNtop : IsNtop small_ntop texts
small_ntop-IsNtop = record { fits = λ family size e. rw e refl; fails = λ family size e. rw e refl }

-- A long IPv6 address is lost, and 0 is returned.
get_addr_and_port-IsNtop_example :
    get_addr_and_port small_ntop (named ipv6_size 5000)
    ≡ record { ret = 0; addr = none; port = none }
get_addr_and_port-IsNtop_example =
    get_addr_and_port-IsNtop small_ntop texts 5000 small_ntop-IsNtop v6

abbrev parsers : Parsers
parsers = record { atoi = λ s. 65616; inet_pton4 = λ s. none; inet_pton6 = λ s. none }

get_addr_info_from_ip_and_port-Resolves_example :
    Resolves parsers (42 ∷ []) 65616 (get_addr_info_from_ip_and_port parsers (42 ∷ []) [])
get_addr_info_from_ip_and_port-Resolves_example =
    get_addr_info_from_ip_and_port-Resolves parsers (42 ∷ []) []

-- The port 65616 becomes 80.
port_run : get_addr_info_from_ip_and_port parsers (42 ∷ []) [] ≡ (0, some (ipv4 inaddr_any 80))
unfolding get_addr_info_from_ip_and_port
port_run = refl
