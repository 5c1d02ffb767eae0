-- ===== src/Dns/Rdata.antt =====
-- internal/dns/util.go: the RDATA of a record in wire format. A nil slice is `none` where the
-- source tells it from an empty one. The decoders are parameters (`Decoders`).
use zone_lint.Common.{
  ℕ, Bytes, length, take, drop, eqb, trim_space, List, [], ◌∷◌, ◌++◌, ◌&&◌, Option, none, some, ◌/◌,
  ◌%◌, ◌^◌, ◌==◌, to_lower, if◌then◌else◌, leb, ◌-◌,
}
use zone_lint.Dns.{
  Soa, Dnskey, Ds, Nsec3, Rrsig, a, aaaa, ns, soa, txt, cname, ptr, mx, srv, caa, dnskey, ds, nsec,
  nsec3, Rr, Package, Decoders,
}
use zone_lint.Dns.Wire.{txt_rdata, caa_rdata}
use zone_lint.Dns.Wire.Bitmap.{type_bitmap}

-- IP.To4: four bytes, or the last four of a mapped address.
unfoldable pub mapped_prefix : Bytes
mapped_prefix = 0 ∷ 0 ∷ 0 ∷ 0 ∷ 0 ∷ 0 ∷ 0 ∷ 0 ∷ 0 ∷ 0 ∷ 255 ∷ 255 ∷ []

unfoldable pub to4 : Bytes → Option Bytes
unfolding eqb mapped_prefix
to4 ip =
    if length ip == 4
    then some ip
    else if length ip == 16 && eqb (take 12 ip) mapped_prefix
    then some (drop 12 ip)
    else none

-- decodeHexField
unfoldable pub decode_hex_field : Decoders → Bytes → Option Bytes
decode_hex_field dec s = dec.hex (trim_space s)

-- decodeBase64Field, which has no error: text that is not base64 is returned as it is.
unfoldable pub decode_base64_field : Decoders → Bytes → Bytes
decode_base64_field dec s =
    let t = trim_space s in
    if eqb t [] then [] else elim (dec.std_base64 t) [
      | some b ↦ b
      | none ↦ elim (dec.raw_base64 t) [ some b ↦ b | none ↦ t ]
    ]

-- strings.ToUpper on ASCII.
unfoldable pub upper_text : Bytes → Bytes
upper_text [] = []
upper_text (c ∷ s) = (if leb 97 c && leb c 122 then c - 32 else c) ∷ upper_text s

-- decodeBase32HexField
unfoldable pub decode_base32_hex_field : Decoders → Bytes → Option Bytes
decode_base32_hex_field dec s =
    let t = trim_space (upper_text s) in if eqb t [] then some [] else dec.base32_hex t

-- ipTo4
unfoldable pub ip_to4 : Bytes → Bytes
ip_to4 ip = elim (to4 ip) [ some v4 ↦ v4 | none ↦ ip ]

-- binary.BigEndian.PutUint16 and PutUint32
unfoldable pub be16 : ℕ → Bytes
be16 n = n / 256 % 256 ∷ n % 256 ∷ []

unfoldable pub be32 : ℕ → Bytes
be32 n = n / 2 ^ 24 % 256 ∷ n / 2 ^ 16 % 256 ∷ n / 256 % 256 ∷ n % 256 ∷ []

-- uncompressedName; CanonicalName is the same.
unfoldable pub uncompressed_name : Package → Bytes → Option Bytes
uncompressed_name pkg n = pkg.pack_domain_name (pkg.fqdn (to_lower n))

-- The same where nil reads as the empty slice.
unfoldable pub name_octets : Package → Bytes → Bytes
name_octets pkg n = elim (uncompressed_name pkg n) [ some w ↦ w | none ↦ [] ]

-- dnskeyRdata
unfoldable pub dnskey_field_rdata : Decoders → Dnskey → Bytes
dnskey_field_rdata dec r =
    be16 r.flags ++ (r.protocol ∷ r.algorithm ∷ decode_base64_field dec r.public_key)

-- dsRdata
unfoldable pub ds_rdata : Decoders → Ds → Bytes
ds_rdata dec r =
    be16 r.key_tag
    ++ (r.algorithm
        ∷ r.digest_type
        ∷ elim (decode_hex_field dec r.digest) [ some d ↦ d | none ↦ [] ])

-- The case of RRData for an SOA record.
unfoldable pub soa_tail : Soa → Bytes
soa_tail r = be32 r.serial ++ (be32 r.refresh ++ (be32 r.retry ++ (be32 r.expire ++ be32 r.minttl)))

unfoldable pub soa_rdata : Package → Soa → Bytes
soa_rdata pkg r = name_octets pkg r.ns ++ (name_octets pkg r.mbox ++ soa_tail r)

-- The case of RRData for an NSEC3 record.
unfoldable pub nsec3_rdata : Decoders → Nsec3 → Option Bytes
nsec3_rdata dec r = elim (decode_hex_field dec r.salt) [
  | none ↦ none
  | some salt ↦ elim (decode_base32_hex_field dec r.next_domain) [
    | none ↦ none
    | some next ↦ some (
        r.hash
        ∷ r.flags
        ∷ (be16 r.iterations
            ++ (length salt % 256 ∷ (salt ++ (length next % 256 ∷ (next ++ type_bitmap r.types))))))
  ]
]

-- The case of RRData for a TXT record: no text leaves the slice nil.
unfoldable pub txt_slice : List Bytes → Option Bytes
txt_slice [] = none
txt_slice (s ∷ ss) = some (txt_rdata (s ∷ ss))

-- The case of RRData for an NSEC record: without a name and without types the slice is nil.
unfoldable pub nsec_slice : Option Bytes → List ℕ → Option Bytes
nsec_slice (some w) types = some (w ++ type_bitmap types)
nsec_slice none [] = none
nsec_slice none (t ∷ types) = some (type_bitmap (t ∷ types))

-- RRData
unfoldable pub rr_data : Decoders → Package → Rr → Option Bytes
rr_data dec pkg rr = elim rr.body [
  | a none ↦ none
  | a (some ip) ↦ some (ip_to4 ip)
  | aaaa ip ↦ ip
  | ns n ↦ uncompressed_name pkg n
  | soa r ↦ some (soa_rdata pkg r)
  | txt ss ↦ txt_slice ss
  | cname n ↦ uncompressed_name pkg n
  | ptr n ↦ uncompressed_name pkg n
  | mx pref n ↦ some (be16 pref ++ name_octets pkg n)
  | srv priority weight port n ↦
      some (be16 priority ++ (be16 weight ++ (be16 port ++ name_octets pkg n)))
  | caa r ↦ some (caa_rdata r)
  | dnskey r ↦ some (dnskey_field_rdata dec r)
  | ds r ↦ some (ds_rdata dec r)
  | nsec n types ↦ nsec_slice (uncompressed_name pkg n) types
  | nsec3 r ↦ nsec3_rdata dec r
  | _ ↦ none
]

-- The eighteen octets before the signer's name, which RRSIGData and sigRDataNoSig both write.
unfoldable pub rrsig_head : Rrsig → Bytes
rrsig_head r =
    be16 r.type_covered
    ++ (r.algorithm
        ∷ r.labels
        ∷ (be32 r.orig_ttl ++ (be32 r.expiration ++ (be32 r.inception ++ be16 r.key_tag))))

-- RRSIGData
unfoldable pub rrsig_data : Rrsig → Bytes
rrsig_data r = rrsig_head r ++ r.signature
