-- ===== src/Dns/Codes.antt =====
-- The numbers of the DNS protocol (the IANA registries) for which the package has names.
use zone_lint.Common.{ℕ}

abbrev pub type_a : ℕ
type_a = 1

abbrev pub type_ns : ℕ
type_ns = 2

abbrev pub type_cname : ℕ
type_cname = 5

abbrev pub type_soa : ℕ
type_soa = 6

abbrev pub type_mx : ℕ
type_mx = 15

abbrev pub type_txt : ℕ
type_txt = 16

abbrev pub type_aaaa : ℕ
type_aaaa = 28

abbrev pub type_ds : ℕ
type_ds = 43

abbrev pub type_nsec : ℕ
type_nsec = 47

abbrev pub type_dnskey : ℕ
type_dnskey = 48

abbrev pub type_nsec3 : ℕ
type_nsec3 = 50

abbrev pub type_axfr : ℕ
type_axfr = 252

abbrev pub type_any : ℕ
type_any = 255

abbrev pub type_caa : ℕ
type_caa = 257

abbrev pub class_inet : ℕ
class_inet = 1

abbrev pub rcode_success : ℕ
rcode_success = 0

abbrev pub rcode_name_error : ℕ
rcode_name_error = 3

abbrev pub rcode_refused : ℕ
rcode_refused = 5
