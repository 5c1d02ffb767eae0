-- ===== src/Checks/Addrs.antt =====
-- internal/addrs/addrs.go: which addresses are not public, and the findings for them.
pub mod Ranges
pub mod Reported
use zone_lint.Common.{
  ℕ, ◌/◌, Bytes, text, eqb, length, take, drop, get_or, List, [], ◌∷◌, ◌++◌, Bool, true, false,
  ◌&&◌, ◌||◌, not, Option, none, some, ◌==◌, leb, if◌then◌else◌,
}
use zone_lint.Common.Dict.{member}
use zone_lint.Dns.{Ip, a, aaaa, Rr, Slot}
use zone_lint.Dns.Rdata.{to4}
use zone_lint.Findings.{Severity, severity_low, severity_medium, Rule, Finding, new, with_zone}
use zone_lint.Findings.Catalog.{
  addr_private, addr_loopback, addr_local, addr_reserved, addr_documentation,
}

pub record Classification : Type 0 where
  pub category : Bytes
  pub severity : Severity
  pub reason : Bytes

abbrev verdict : Bytes → Severity → Bytes → Option Classification
verdict c s r = some (record { category = c; severity = s; reason = r })

-- isLoopbackV4, isPrivateV4, isDocV4
unfoldable pub is_loopback_v4 : Bytes → Bool
is_loopback_v4 ip = get_or ip 0 0 == 127

unfoldable pub is_private_v4 : Bytes → ℕ → Bool
is_private_v4 ip second =
    if not (get_or ip 0 0 == second)
    then false
    else if second == 172
    then leb 16 (get_or ip 1 0) && leb (get_or ip 1 0) 31
    else true

unfoldable pub is_doc_v4 : Bytes → Bool
is_doc_v4 ip =
    (get_or ip 0 0 == 198 && (get_or ip 1 0 == 51 && get_or ip 2 0 == 100))
    || (get_or ip 0 0 == 203 && (get_or ip 1 0 == 0 && get_or ip 2 0 == 113))

-- classifyV4
unfoldable pub classify_v4 : Bytes → Option Classification
unfolding is_loopback_v4 is_private_v4 is_doc_v4
classify_v4 ip =
    if is_loopback_v4 ip
    then verdict (text "loopback") severity_medium (text "IPv4 loopback 127.0.0.0/8")
    else if is_private_v4 ip 10
    then verdict (text "private") severity_medium (text "RFC1918 10.0.0.0/8")
    else if is_private_v4 ip 172
    then verdict (text "private") severity_medium (text "RFC1918 172.16.0.0/12")
    else if is_private_v4 ip 192
    then verdict (text "private") severity_medium (text "RFC1918 192.168.0.0/16")
    else if get_or ip 0 0 == 169 && get_or ip 1 0 == 254
    then verdict (text "link-local") severity_low (text "link-local 169.254.0.0/16")
    else if is_doc_v4 ip
    then verdict (text "documentation") severity_low
        (text "documentation 198.51.100.0/24 / 203.0.113.0/24")
    else if get_or ip 0 0 == 192
        && (get_or ip 1 0 == 0 && (get_or ip 2 0 == 0 && get_or ip 3 0 == 2))
    then verdict (text "reserved") severity_low (text "reserved 192.0.0.0/24")
    else if leb 224 (get_or ip 0 0)
    then verdict (text "reserved") severity_low (text "reserved/multicast/unicast-multicast")
    else none

-- The tests of net.IP on a sixteen-byte address that maps no IPv4 address.
unfoldable pub v6_loopback : Bytes
v6_loopback = 0 ∷ 0 ∷ 0 ∷ 0 ∷ 0 ∷ 0 ∷ 0 ∷ 0 ∷ 0 ∷ 0 ∷ 0 ∷ 0 ∷ 0 ∷ 0 ∷ 0 ∷ 1 ∷ []

unfoldable pub v6_unspecified : Bytes
v6_unspecified = 0 ∷ 0 ∷ 0 ∷ 0 ∷ 0 ∷ 0 ∷ 0 ∷ 0 ∷ 0 ∷ 0 ∷ 0 ∷ 0 ∷ 0 ∷ 0 ∷ 0 ∷ 0 ∷ []

-- isLoopbackV6, isUniqueLocalV6 (ip[0] & 0xfe == 0xfc), isLinkLocalV6 (0xfe, and
-- ip[1] & 0xc0 == 0x80) and isUnspecifiedV6.
unfoldable pub is_loopback_v6 : Bytes → Bool
is_loopback_v6 ip = eqb ip v6_loopback

unfoldable pub is_unique_local_v6 : Bytes → Bool
is_unique_local_v6 ip = get_or ip 0 0 / 2 == 126

unfoldable pub is_link_local_v6 : Bytes → Bool
is_link_local_v6 ip = get_or ip 0 0 == 254 && get_or ip 1 0 / 64 == 2

unfoldable pub is_unspecified_v6 : Bytes → Bool
is_unspecified_v6 ip = eqb ip v6_unspecified

-- classifyV6
unfoldable pub classify_v6 : Bytes → Option Classification
unfolding is_loopback_v6 is_unique_local_v6 is_link_local_v6 is_unspecified_v6
classify_v6 ip =
    if is_loopback_v6 ip
    then verdict (text "loopback") severity_medium (text "IPv6 loopback ::1")
    else if is_unique_local_v6 ip
    then verdict (text "private") severity_medium (text "IPv6 unique-local fc00::/7")
    else if is_link_local_v6 ip
    then verdict (text "link-local") severity_low (text "IPv6 link-local fe80::/10")
    else if is_unspecified_v6 ip
    then verdict (text "reserved") severity_low (text "IPv6 unspecified ::")
    else none

-- Classify. To16 is the address itself at this point, or nil where it has not sixteen bytes.
unfoldable pub classify : Ip → Option Classification
unfolding to4 classify_v4 classify_v6
classify none = none
classify (some ip) = elim (to4 ip) [
  | some v4 ↦ classify_v4 v4
  | none ↦ if length ip == 16 then classify_v6 ip else none
]

-- classificationRule
unfoldable pub classification_rule : Bytes → Option Rule
unfolding eqb
classification_rule category =
    if eqb category (text "private")
    then some addr_private
    else if eqb category (text "loopback")
    then some addr_loopback
    else if eqb category (text "link-local")
    then some addr_local
    else if eqb category (text "reserved")
    then some addr_reserved
    else if eqb category (text "documentation")
    then some addr_documentation
    else none

-- dnsutilAddrs: the address of an A or AAAA record that is not nil.
unfoldable pub record_addrs : Slot → List Ip
record_addrs none = []
record_addrs (some rr) = elim rr.body [
  | a (some ip) ↦ some ip ∷ []
  | aaaa (some ip) ↦ some ip ∷ []
  | _ ↦ []
]

-- The variables of CheckAll: the keys of `seen`, and `out`.
pub record Loop : Type 0 where
  pub seen : List Bytes
  pub out : List Finding

-- The loops of CheckAll. `ip_string` is net.IP.String, and `seen` holds its keys.
module _ (ip_string : Ip → Bytes) (zone : Bytes) where
  unfoldable pub report : Ip → Classification → Loop → Loop
  report ip c l = elim (classification_rule c.category) [
    | none ↦ l
    | some rule ↦ record l {
      out =
          l.out
          ++ with_zone (new rule (ip_string ip) c.reason ((text "address " ++ ip_string ip) ∷ []))
              zone
            ∷ [];
    }
  ]

  -- The body of the inner loop.
  unfoldable pub visit : Ip → Loop → Loop
  unfolding report
  visit ip l = elim (classify ip) [
    | none ↦ l
    | some c ↦
        if member (ip_string ip) l.seen
        then l
        else report ip c (record l { seen = ip_string ip ∷ l.seen })
  ]

  unfoldable pub visit_all : List Ip → Loop → Loop
  unfolding visit
  visit_all [] l = l
  visit_all (ip ∷ ips) l = visit_all ips (visit ip l)

  unfoldable pub check_from : List Slot → Loop → Loop
  unfolding visit_all record_addrs
  check_from [] l = l
  check_from (rr ∷ rest) l = check_from rest (visit_all (record_addrs rr) l)

  -- CheckAll
  unfoldable pub check_all : List Slot → List Finding
  unfolding check_from
  check_all records = (check_from records (record { seen = []; out = [] })).out
