-- ===== src/Wg/Alloc.antt =====
-- `findFreeIp` of services/wg.service.ts.
pub mod Fresh
use vpn_relay.Prelude.{
  ℕ, zero, suc, ◌+◌, Text, ltb, leb, ◌==◌, if◌then◌else◌, Bool, true, false, Option, none, some,
  List, [], ◌∷◌, ◌++◌, any,
}
use vpn_relay.Wg.Conf.{wg_ip_start, wg_ip_end, ip_octet}
use vpn_relay.Wg.Conf.Scan.{parse_conf_ips}
use vpn_relay.Client.Table.{Client, Clients}

abbrev pub reservation_ttl_ms : ℕ
reservation_ttl_ms = 60000

-- `reserved`: octet → reservedAt, a `Map`, so no octet stands in it twice
abbrev pub Reserved : Type 0
Reserved = List (ℕ × ℕ)

abbrev pub octet_of_ip : Option Text → List ℕ
octet_of_ip none = []
octet_of_ip (some ip) = elim (ip_octet ip) [ none ↦ [] | some octet ↦ octet ∷ [] ]

-- The octets that the table owns.
unfoldable pub table_octets : Clients → List ℕ
table_octets [] = []
table_octets (c ∷ cs) = octet_of_ip c.wg_ip ++ table_octets cs

-- `now - at > RESERVATION_TTL_MS`
abbrev pub is_outdated : ℕ → ℕ → Bool
is_outdated now at = ltb (at + reservation_ttl_ms) now

-- The reservations that the sweep leaves.
unfoldable pub sweep : ℕ → Reserved → Reserved
sweep now [] = []
sweep now ((octet, at) ∷ r) =
    let rest = sweep now r in if is_outdated now at then rest else (octet, at) ∷ rest

abbrev pub octets : Reserved → List ℕ
octets [] = []
octets ((octet, at) ∷ r) = octet ∷ octets r

-- The octets of the conf on A; `none` when A is not reached.
abbrev pub conf_octets : Option Text → List ℕ
conf_octets none = []
conf_octets (some conf) = parse_conf_ips conf

unfoldable pub used_octets : Clients → Reserved → Option Text → ℕ → List ℕ
unfolding table_octets sweep parse_conf_ips
used_octets clients reserved conf now =
    table_octets clients ++ (octets (sweep now reserved) ++ conf_octets conf)

abbrev pub is_used : ℕ → List ℕ → Bool
is_used octet = any (λ (u : ℕ). u == octet)

-- `for (let i = WG_IP_START; i <= WG_IP_END; i++)`, with the rounds that are left
unfoldable pub first_free : ℕ → ℕ → List ℕ → Option ℕ
first_free zero i used = none
first_free (suc n) i used =
    let rest = first_free n (i + 1) used in if is_used i used then rest else some i

-- `reserved.set(i, at)`
abbrev pub reserve : ℕ → ℕ → Reserved → Reserved
reserve octet at [] = (octet, at) ∷ []
reserve octet at ((o, t) ∷ r) = if o == octet then (octet, at) ∷ r else (o, t) ∷ reserve octet at r

abbrev pub reserve_found : ℕ → Reserved → Option ℕ → Option ℕ × Reserved
reserve_found at r none = (none, r)
reserve_found at r (some octet) = (some octet, reserve octet at r)

-- `findFreeIp`: the octet of the address, or `none` for the error; `at` is the time after the read.
unfoldable pub find_free_ip : Clients → Reserved → Option Text → ℕ → ℕ → Option ℕ × Reserved
unfolding used_octets first_free
find_free_ip clients reserved conf now at =
    reserve_found at (sweep now reserved)
      (first_free 253 wg_ip_start (used_octets clients reserved conf now))
