-- ===== src/Net/Addresses.antt =====
-- What the functions of net_util.c answer, for every answer of the system.
use cosc402_assignment.Base.{
  ℕ, ◌%◌, ◌^◌, ◌≡◌, ◌≢◌, refl, sym, ap, ◌∙◌, true, false, Option, none, some, List, arith, ltb,
  ◌==◌, if◌then◌else◌, inl, inr, Bool-cases,
}
use cosc402_assignment.Base.Lists.{length}
use cosc402_assignment.Base.Words.{int_pos, minus_one}
use cosc402_assignment.Message.{strcmp}
use cosc402_assignment.Message.Laws.{strcmp_zero, strcmp_self}
use cosc402_assignment.Net.{
  ipv4_size, ipv6_size, af_inet, af_inet6, named, converted, get_addr_and_port, any_host,
  inaddr_any, SockAddr, ipv4, ipv6, Parsers, as_ipv4, as_ipv6, get_addr_info_from_ip_and_port,
}

-- `inet_ntop` writes the text of an address if it fits with its 0, and fails otherwise.
pub record IsNtop (inet_ntop : ℕ → ℕ → Option (List ℕ)) (texts : ℕ → List ℕ) : Type 0 where
  pub fits :
      (family size : ℕ)
      → ltb (length (texts family)) size ≡ true
      → inet_ntop family size ≡ some (texts family)
  pub fails :
      (family size : ℕ) → ltb (length (texts family)) size ≡ false → inet_ntop family size ≡ none

-- The families, with the sizes of their addresses.
pub data IsFamily : ℕ → ℕ → Type 0 where
  v4 : IsFamily af_inet ipv4_size
  v6 : IsFamily af_inet6 ipv6_size

converted_text :
    (inet_ntop : ℕ → ℕ → Option (List ℕ)) (texts : ℕ → List ℕ) (family size port : ℕ)
    → IsNtop inet_ntop texts
    → converted (inet_ntop family size) port ≡ (
        if ltb (length (texts family)) size
        then record { ret = 0; addr = some (texts family); port = some port }
        else record { ret = 0; addr = none; port = none })
converted_text inet_ntop texts family size port h =
    elim (Bool-cases (ltb (length (texts family)) size)) [
      | inl e ↦ rw (h.fits family size e, e) refl
      | inr ne ↦ rw (h.fails family size ne, ne) refl
    ]

-- If inet_ntop writes the text of an address when it fits with its 0 and fails otherwise,
-- get_addr_and_port for an IPv4 or IPv6 peer returns 0 in both cases: with the text and the port
-- if the text is shorter than the binary address, and with a null pointer and the port not written
-- if it is not.
pub get_addr_and_port-IsNtop :
    {family size : ℕ} (inet_ntop : ℕ → ℕ → Option (List ℕ)) (texts : ℕ → List ℕ) (port : ℕ)
    → IsNtop inet_ntop texts
    → IsFamily family size
    → get_addr_and_port inet_ntop (named size port) ≡ (
        if ltb (length (texts family)) size
        then record { ret = 0; addr = some (texts family); port = some port }
        else record { ret = 0; addr = none; port = none })
unfolding get_addr_and_port
get_addr_and_port-IsNtop inet_ntop texts port h v4 =
    converted_text inet_ntop texts af_inet ipv4_size port h
get_addr_and_port-IsNtop inet_ntop texts port h v6 =
    converted_text inet_ntop texts af_inet6 ipv6_size port h

-- What an address and a port, of the value `porti`, resolve to.
pub data Resolves (e : Parsers) (ip : List ℕ) (porti : ℕ) : ℕ × Option SockAddr → Type 0 where
  any :
      ip ≡ any_host
      → int_pos porti ≡ true
      → Resolves e ip porti (0, some (ipv4 inaddr_any (porti % 2 ^ 16)))
  as_v4 :
      {a : List ℕ}
      → ip ≢ any_host
      → e.inet_pton4 ip ≡ some a
      → int_pos porti ≡ true
      → Resolves e ip porti (0, some (ipv4 a (porti % 2 ^ 16)))
  as_v6 :
      {a : List ℕ}
      → ip ≢ any_host
      → e.inet_pton4 ip ≡ none
      → e.inet_pton6 ip ≡ some a
      → int_pos porti ≡ true
      → Resolves e ip porti (0, some (ipv6 a (porti % 2 ^ 16)))
  no_host :
      ip ≢ any_host
      → e.inet_pton4 ip ≡ none
      → e.inet_pton6 ip ≡ none
      → Resolves e ip porti (minus_one, none)
  no_port : int_pos porti ≡ false → Resolves e ip porti (minus_one, none)

module _ (e : Parsers) (ip : List ℕ) (porti : ℕ) (pos : int_pos porti ≡ true)
    (other : ip ≢ any_host) where
  ipv6-Resolves :
      (o : Option (List ℕ))
      → e.inet_pton4 ip ≡ none
      → e.inet_pton6 ip ≡ o
      → Resolves e ip porti (as_ipv6 o porti)
  ipv6-Resolves none h k = no_host other h k
  ipv6-Resolves (some a) h k = as_v6 other h k pos

  ipv4-Resolves :
      (o : Option (List ℕ)) → e.inet_pton4 ip ≡ o → Resolves e ip porti (as_ipv4 e ip porti o)
  ipv4-Resolves none h = ipv6-Resolves (e.inet_pton6 ip) h refl
  ipv4-Resolves (some a) h = as_v4 other h pos

-- get_addr_info_from_ip_and_port gives -1 for a port that is not positive or an address that is
-- neither *, nor IPv4, nor IPv6, and otherwise 0 with the address, IPv4 before IPv6, and the port
-- modulo 2 ^ 16.
pub get_addr_info_from_ip_and_port-Resolves :
    (e : Parsers) (ip port : List ℕ)
    → Resolves e ip (e.atoi port) (get_addr_info_from_ip_and_port e ip port)
unfolding get_addr_info_from_ip_and_port
get_addr_info_from_ip_and_port-Resolves e ip port = elim (Bool-cases (int_pos (e.atoi port))) [
  | inr ne ↦ rw ne (no_port ne)
  | inl pos ↦ rw pos (elim (Bool-cases (strcmp any_host ip == 0)) [
    | inl same ↦
        let host : ip ≡ any_host = sym (strcmp_zero any_host ip (ground (arith, same))) in
        rw same (any host pos)
    | inr differs ↦ rw differs (
        ipv4-Resolves e ip (e.atoi port) pos (λ host. differ_absurd host differs) (e.inet_pton4 ip)
          refl)
  ])
]
  where
    differ_absurd : ip ≡ any_host → (strcmp any_host ip == 0) ≡ false → ⊥
    differ_absurd host differs =
        let zero_there : strcmp any_host ip ≡ 0 =
          ap (strcmp any_host) host ∙ strcmp_self any_host in
        ground (arith, zero_there, differs)
