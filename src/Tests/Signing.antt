-- ===== src/Tests/Signing.antt =====
-- DNSSEC: key tags, keys, chains and signatures.
use zone_lint.Common.{
  Bytes, text, to_lower, All, [], ◌∷◌, true, some, ◌≡◌, ◌↔◌, ◌⊎◌, ◌<◌, ◌+◌, ◌/◌, ◌%◌, refl, arith,
}
use zone_lint.Dnssec.{dnskey_rdata, key_tag}
use zone_lint.Dnssec.Tags.{checksum, key_tag-checksum}
use zone_lint.Dnssec.Keys.{
  KeyInfo, RrsigInfo, DsInfo, ed25519_key, parse_der_rsa, der_integer, be_value, be_value_onto,
}
use zone_lint.Dnssec.Keys.Rsa.{parse_der_rsa-bound}
use zone_lint.Dnssec.Chain.{ZoneKeys, merge, validate_chain, in_zone}
use zone_lint.Dnssec.Chain.Validity.{
  IsFresh, HasAnchor, SignedBy, validate_chain_iff, in_zone-SignedBy,
}
use zone_lint.Dnssec.Presence.{check_zone}
use zone_lint.Dnssec.Presence.Reported.{IsSound, check_zone-nil_iff}
use zone_lint.Tests.Worlds.{hashes}
use zone_lint.Tests.Data.{plain, zone_name}

abbrev key_data : Bytes
key_data = 3 ∷ 1 ∷ 0 ∷ 1 ∷ []

key_tag-checksum_example :
    let sum = checksum true (dnskey_rdata 257 3 8 key_data) in
    key_tag 257 3 8 key_data ≡ (sum + sum / 65536) % 65536
key_tag-checksum_example =
    key_tag-checksum 257 3 8 key_data (omega arith) (omega arith) (omega arith)
      (omega arith, (omega arith, (omega arith, (omega arith, tt)))) (omega arith)

-- SEQUENCE { INTEGER 257, INTEGER 3 }, both of two bytes.
abbrev der_key : Bytes
der_key = 48 ∷ 8 ∷ 2 ∷ 2 ∷ 1 ∷ 1 ∷ 2 ∷ 2 ∷ 0 ∷ 3 ∷ []

der_key-parsed : parse_der_rsa der_key ≡ some (257, 3)
unfolding parse_der_rsa der_integer be_value be_value_onto
der_key-parsed = refl

parse_der_rsa-bound_example : ((0 < 257) × (257 < 65536)) × ((0 < 3) × (3 < 65536))
parse_der_rsa-bound_example =
    parse_der_rsa-bound der_key 257 3
      (
        omega arith,
        (
          omega arith,
          (
            omega arith,
            (
              omega arith,
              (
                omega arith,
                (omega arith, (omega arith, (omega arith, (omega arith, (omega arith, tt))))),
              ),
            ),
          ),
        ),
      )
      der_key-parsed

abbrev pub signature : RrsigInfo
signature = record {
  type_covered = 1;
  algorithm = 15;
  labels = 1;
  original_ttl = 300;
  expiration = 2000;
  inception = 1000;
  key_tag = 7;
  signer_name = text "example.";
  raw_signature = [];
  raw_rdata = [];
}

abbrev key_info : KeyInfo
key_info = record {
  flags = 257;
  protocol = 3;
  algorithm = 15;
  public_key = ed25519_key key_data;
  key_bytes = key_data;
  key_tag = 7;
}

abbrev parent_ds : DsInfo
parent_ds = record { key_tag = 7; algorithm = 15; digest_type = 2; digest = key_data }

abbrev pub zone_keys : ZoneKeys
zone_keys = record {
  dnskeys = (zone_name, key_info ∷ []) ∷ [];
  rrsigs = (zone_name, signature ∷ []) ∷ [];
  dss = (zone_name, parent_ds ∷ []) ∷ [];
  by_type = [];
}

abbrev anchor : ZoneKeys
anchor = record { dnskeys = []; rrsigs = []; dss = (zone_name, parent_ds ∷ []) ∷ []; by_type = [] }

validate_chain_iff_example : ((validate_chain hashes plain anchor zone_keys 1500).valid ≡ true) ↔ (
    All (IsFresh 1500) (merge zone_keys.rrsigs)
    × (HasAnchor hashes plain anchor zone_keys ⊎ ((zone_keys.dss ≡ []) ⊎ (anchor.dss ≡ []))))
validate_chain_iff_example = validate_chain_iff hashes plain anchor zone_keys 1500

in_zone-SignedBy_example :
    SignedBy
      (plain.fqdn (to_lower (text "Example")))
      (in_zone plain zone_keys (text "Example")).rrsigs
    × (((in_zone plain zone_keys (text "Example")).dnskeys ≡ zone_keys.dnskeys)
        × ((in_zone plain zone_keys (text "Example")).dss ≡ zone_keys.dss))
in_zone-SignedBy_example = in_zone-SignedBy plain zone_keys (text "Example")

check_zone-nil_iff_example : (check_zone plain zone_name zone_keys 3000 ≡ []) ↔ (
    ((zone_keys.dnskeys ≡ []) ↔ (zone_keys.rrsigs ≡ []))
    × All (IsSound 3000) (merge zone_keys.rrsigs))
check_zone-nil_iff_example = check_zone-nil_iff plain zone_name zone_keys 3000
