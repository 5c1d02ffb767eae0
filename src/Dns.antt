-- ===== src/Dns.antt =====
-- The DNS messages that the checks read. The types are those of github.com/miekg/dns, with the
-- fields that the source uses; the functions of that package are parameters (`Package`).
pub mod Codes
pub mod Records
pub mod Wire
pub mod Rdata
pub mod Query
use zone_lint.Common.{ℕ, Bytes, List, Bool, Option}

-- A net.IP: `none` is nil, and otherwise the slice's bytes.
abbrev pub Ip : Type 0
Ip = Option Bytes

pub record Header : Type 0 where
  pub name : Bytes
  pub rrtype : ℕ
  pub ttl : ℕ

pub record Soa : Type 0 where
  pub ns : Bytes
  pub mbox : Bytes
  pub serial : ℕ
  pub refresh : ℕ
  pub retry : ℕ
  pub expire : ℕ
  pub minttl : ℕ

pub record Caa : Type 0 where
  pub flag : ℕ
  pub tag : Bytes
  pub value : Bytes

pub record Dnskey : Type 0 where
  pub flags : ℕ
  pub protocol : ℕ
  pub algorithm : ℕ
  pub public_key : Bytes

pub record Ds : Type 0 where
  pub key_tag : ℕ
  pub algorithm : ℕ
  pub digest_type : ℕ
  pub digest : Bytes

pub record Nsec3 : Type 0 where
  pub hash : ℕ
  pub flags : ℕ
  pub iterations : ℕ
  pub salt_length : ℕ
  pub salt : Bytes
  pub next_domain : Bytes
  pub types : List ℕ

pub record Rrsig : Type 0 where
  pub type_covered : ℕ
  pub algorithm : ℕ
  pub labels : ℕ
  pub orig_ttl : ℕ
  pub expiration : ℕ
  pub inception : ℕ
  pub key_tag : ℕ
  pub signer_name : Bytes
  pub signature : Bytes

-- The dynamic type of a record, on which the source switches.
pub data Body : Type 0 where
  a : Ip → Body
  aaaa : Ip → Body
  ns : Bytes → Body
  soa : Soa → Body
  txt : List Bytes → Body
  cname : Bytes → Body
  ptr : Bytes → Body
  mx : ℕ → Bytes → Body
  srv : ℕ → ℕ → ℕ → Bytes → Body
  caa : Caa → Body
  dnskey : Dnskey → Body
  ds : Ds → Body
  nsec : Bytes → List ℕ → Body
  nsec3 : Nsec3 → Body
  rrsig : Rrsig → Body
  other : Body

pub record Rr : Type 0 where
  pub header : Header
  pub body : Body

-- An element of a []dns.RR, which may be nil.
abbrev pub Slot : Type 0
Slot = Option Rr

pub record Msg : Type 0 where
  pub rcode : ℕ
  pub authoritative : Bool
  pub recursion_available : Bool
  pub has_edns : Bool
  pub answer : List Slot
  pub ns : List Slot

-- The functions of the package that the checks call.
pub record Package : Type 0 where
  pub fqdn : Bytes → Bytes
  pub is_fqdn : Bytes → Bool
  pub type_to_string : ℕ → Bytes
  pub pack_domain_name : Bytes → Option Bytes

-- The decoders of encoding/base64, encoding/hex and encoding/base32 (the hexadecimal alphabet
-- without padding); an error is `none`.
pub record Decoders : Type 0 where
  pub std_base64 : Bytes → Option Bytes
  pub raw_base64 : Bytes → Option Bytes
  pub hex : Bytes → Option Bytes
  pub base32_hex : Bytes → Option Bytes
