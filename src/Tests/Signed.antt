-- ===== src/Tests/Signed.antt =====
-- A signed response.
use zone_lint.Common.{text, some, [], ◌∷◌}
use zone_lint.Dns.{Slot, Msg, ns, dnskey, rrsig}
use zone_lint.Dns.Wire.Bitmap.{no_bits}
use zone_lint.Audit.Signatures.{stat_key, count_units}
use zone_lint.Audit.Signatures.Checked.{all_entries}
use zone_lint.Audit.Signatures.Tally.{passes_at, fails_at, Tally}
use zone_lint.Audit.Signatures.Counted.{count_units-Tally}
use zone_lint.Tests.Data.{plain, zone_name, answer_of}
use zone_lint.Tests.Worlds.{primitives, codec}

-- A key of 32 zero bytes, whose tag is 257 + 3 * 256 + 15.
abbrev key_record : Slot
key_record = some (record {
  header = record { name = zone_name; rrtype = 48; ttl = 300 };
  body = dnskey (record { flags = 257; protocol = 3; algorithm = 15; public_key = no_bits });
})

abbrev server_record : Slot
server_record = some (record {
  header = record { name = zone_name; rrtype = 2; ttl = 300 };
  body = ns (text "ns1.example.");
})

abbrev signature_record : Slot
signature_record = some (record {
  header = record { name = zone_name; rrtype = 46; ttl = 300 };
  body = rrsig (record {
    type_covered = 2;
    algorithm = 15;
    labels = 1;
    orig_ttl = 300;
    expiration = 2000;
    inception = 1000;
    key_tag = 1040;
    signer_name = zone_name;
    signature = text "signature";
  });
})

abbrev signed_answer : Msg
signed_answer = answer_of (server_record ∷ signature_record ∷ [])

count_units-Tally_example :
    let key = stat_key zone_name 2 in
    let stats =
      count_units primitives codec plain zone_name (key_record ∷ []) (signed_answer ∷ []) [] in
    Tally primitives codec plain zone_name key
      (all_entries codec plain (key_record ∷ []) (signed_answer ∷ []))
      (passes_at key stats)
      (fails_at key stats)
count_units-Tally_example =
    count_units-Tally primitives codec plain zone_name (stat_key zone_name 2) (key_record ∷ [])
      (signed_answer ∷ [])
