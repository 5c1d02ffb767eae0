-- ===== src/Tests/Runs.antt =====
-- Whole audits, and the resolver.
use zone_lint.Common.{
  ◌≢◌, ◌⊎◌, Option, ◌==◌, if◌then◌else◌, ◌||◌, ℕ, Bytes, text, length, true, false, none, some,
  List, [], ◌∷◌, ◌++◌, map, All, ◌≡◌, ◌≤◌, ◌+◌, ◌*◌, ◌↔◌, arith,
}
use zone_lint.Common.Dict.{items}
use zone_lint.Dns.{Msg, Rr, ds}
use zone_lint.Dns.Codes.{type_ns, type_a}
use zone_lint.Dns.Query.{Question}
use zone_lint.Dns.Wire.Bitmap.{has_number, type_bitmap}
use zone_lint.Dns.Wire.Bitmap.Read.{read_type, read_type-type_bitmap}
use zone_lint.Budget.{defaults, validated}
use zone_lint.Findings.Catalog.{general_error}
use zone_lint.Dnssec.Chain.{records_at, collect}
use zone_lint.Dnssec.Chain.Covered.{named, records_at-collect}
use zone_lint.Dnssec.Signed.{signed_data}
use zone_lint.Dnssec.Signed.Canonical.{has_data, signed_data-has_data}
use zone_lint.Dnssec.Verify.{verify_rrsig_for_type}
use zone_lint.Dnssec.Verify.Accepted.{IsVerified, verify_rrsig_for_type-none_iff}
use zone_lint.Audit.{failed}
use zone_lint.Audit.Session.{Outside, Runner}
use zone_lint.Audit.Session.Trace.{Calls}
use zone_lint.Audit.Gather.{Gathered, ask, collect_dnssec}
use zone_lint.Audit.Gather.Once.{occurrences, occurs, occurs_in, answers, collect_dnssec-once}
use zone_lint.Audit.Run.{run}
use zone_lint.Audit.Run.Counted.{run-Calls, run-queries}
use zone_lint.Audit.Network.{over_network, new_runner}
use zone_lint.Audit.Network.Messages.{run-Within}
use zone_lint.Audit.Run.Final.{IsFinal, run-IsFinal}
use zone_lint.Resolver.{Config, Wire, Network, transfer_bound, extract_transfer, new_network}
use zone_lint.Resolver.Bounded.{Within}
use zone_lint.Resolver.Records.{extract_transfer-length}
use zone_lint.Resolver.Served.{Call, query_call, transfer_call, serve_all, serve_all-returns}
use zone_lint.Tests.Data.{plain, zone_name, ns_record, private_record, answer_of}
use zone_lint.Tests.Signing.{zone_keys, signature}
use zone_lint.Resolver.Fake.{Zone, FakeResolver, find_zone}
use zone_lint.Resolver.Fake.Longest.{Covering, size, size_for, find_zone-longest}
use zone_lint.Tests.Worlds.{options, env, codec, decoders, primitives}

-- A server that answers every query with the same records; the world counts its answers.
abbrev outside : Outside ℕ
outside = record {
  query = λ server req w. (some (answer_of (ns_record ∷ private_record ∷ [])), w + 1);
  transfer = λ server req w. (failed, w + 1);
  random = λ w. (some (17 ∷ 254 ∷ []), w);
}

run-Calls_example :
    let end = run env options zone_name outside (record { queries = 0; world = 0 }) in
    Calls outside options 0 end.1.queries end.1.world × (end.1.queries ≤ 13 + 5 * end.0.records)
run-Calls_example = run-Calls env options zone_name outside 0

run-IsFinal_example :
    IsFinal env options zone_name outside
      (run env options zone_name outside (record { queries = 0; world = 0 })).0
run-IsFinal_example = run-IsFinal env options zone_name outside (record { queries = 0; world = 0 })

-- A server that never answers.
abbrev silent : Outside ℕ
silent = record outside { query = λ server req w. (none, w + 1) }

abbrev first_runner : Runner ℕ
first_runner = record { queries = 0; world = 0 }

run-queries_example :
    let first = (ask silent options env.pkg zone_name type_ns first_runner).0 in
    let end = run env options zone_name silent first_runner in
    ((first ≢ none) × ((end.0.queries ≡ end.1.queries) × (0 + 2 ≤ end.1.queries)))
    ⊎ ((first ≡ none)
        × ((map (λ f. f.id) end.0.findings ≡ general_error.id ∷ [])
            × ((end.0.records ≡ 0) × ((end.0.queries ≡ 0) × (end.1.queries ≡ 0 + 1)))))
run-queries_example = run-queries env options zone_name silent first_runner

abbrev config : Config
config = record { timeout = 0; retries = 2; budget = defaults; udp_addr = [] }

abbrev wire : Wire ℕ
wire = record {
  now = λ w. w;
  context_done = λ w. false;
  time_left = λ w. none;
  prefers_done = λ w. false;
  exchange = λ netw timeout server req w. (none, w + 1);
  timed_out = λ w. false;
  host_servers = none;
  has_port = λ s. true;
}

abbrev question : Question
question = record { name = zone_name; qtype = type_ns; recursion_desired = true; edns = none }

abbrev calls : List Call
calls = query_call [] question ∷ transfer_call (text "192.0.2.1:53") question ∷ []

serve_all-returns_example :
    (t : Network ℕ) × ((serve_all wire calls (new_network wire config 0) ≡ some t)
      × Within wire (2 * (2 + 1) * (validated defaults).max_queries) 0 t.world)
serve_all-returns_example = serve_all-returns wire config 0 calls

extract_transfer-length_example :
    length (extract_transfer (some (answer_of (ns_record ∷ none ∷ [])))) ≤ transfer_bound + 1
extract_transfer-length_example = extract_transfer-length (some (answer_of (ns_record ∷ none ∷ [])))

records_at-collect_example :
    records_at zone_name 0 (collect codec plain (answer_of (ns_record ∷ private_record ∷ [])))
    ≡ named plain zone_name 0 (ns_record ∷ private_record ∷ []) ++ named plain zone_name 0 []
records_at-collect_example =
    records_at-collect codec plain zone_name 0 (answer_of (ns_record ∷ private_record ∷ []))

verify_rrsig_for_type-none_iff_example :
    (verify_rrsig_for_type primitives decoders plain zone_keys zone_name type_a ≡ none)
    ↔ All
        (IsVerified primitives decoders plain zone_keys zone_name type_a)
        (items zone_name zone_keys.rrsigs)
verify_rrsig_for_type-none_iff_example =
    verify_rrsig_for_type-none_iff primitives decoders plain zone_keys zone_name type_a

-- A digest record of a delegation.
abbrev ds_record : ℕ → Rr
ds_record tag = record {
  header = record { name = zone_name; rrtype = 43; ttl = 300 };
  body = ds (record { key_tag = tag; algorithm = 15; digest_type = 2; digest = [] });
}

abbrev once : List Rr
once = ds_record 1 ∷ ds_record 2 ∷ []

abbrev turned : List Rr
turned = ds_record 2 ∷ ds_record 1 ∷ ds_record 2 ∷ []

turned-same : (rd : Bytes) → has_data decoders plain once rd ≡ has_data decoders plain turned rd
unfolding has_data
turned-same rd = ground arith

signed_data-has_data_example :
    signed_data decoders plain signature zone_name once
    ≡ signed_data decoders plain signature zone_name turned
signed_data-has_data_example =
    signed_data-has_data decoders plain signature zone_name once turned turned-same

read_type-type_bitmap_example :
    read_type 4 (type_bitmap (257 ∷ 1 ∷ 257 ∷ [])) 257 ≡ has_number 257 (257 ∷ 1 ∷ 257 ∷ [])
read_type-type_bitmap_example =
    read_type-type_bitmap 4 (257 ∷ 1 ∷ 257 ∷ []) 257 (omega arith)
      (omega arith, (omega arith, (omega arith, tt))) (omega arith)

abbrev first_response : Msg
first_response = answer_of (ns_record ∷ ns_record ∷ [])

abbrev gathered : Gathered
gathered = record { all = private_record ∷ []; units = [] }

abbrev ns_key : Bytes
ns_key = text "example.|0|"

collect_dnssec-once_example :
    let shown = λ (rr : Rr). rr.header.name in
    let d =
      (collect_dnssec outside options plain decoders shown zone_name first_response gathered
        first_runner).0 in
    let more = answers outside options plain zone_name first_runner in
    (d.units ≡ (first_response ∷ []) ++ more)
    × (occurrences decoders plain shown ns_key d.combined.answer
          + occurrences decoders plain shown ns_key d.combined.ns
        ≡ (if occurs decoders plain shown ns_key gathered.all
              || occurs_in decoders plain shown ns_key (first_response ∷ more)
            then 1
            else 0))
collect_dnssec-once_example =
    collect_dnssec-once outside options plain decoders (λ rr. rr.header.name) zone_name
      first_response gathered first_runner ns_key

abbrev draw : ℕ → Option Bytes × ℕ
draw n = (some (n ∷ []), n + 1)

run-Within_example :
    let end =
      run env options zone_name (over_network wire draw) (new_runner wire draw options 0 7) in
    Within wire (2 * (if 400 == 0 then 400 else 400)) 0 end.1.world.0.world
run-Within_example = run-Within wire draw options env zone_name 0 7

abbrev served_zone : Bytes → Zone
served_zone name = record {
  name = name;
  records = [];
  transfer_allowed = false;
  recursive = false;
  soa_override = none;
}

abbrev fake : FakeResolver
fake = record {
  zones =
      (text "example.", served_zone (text "example."))
      ∷ (text "sub.example.", served_zone (text "sub.example."))
      ∷ [];
  default_fallback = [];
  query_log = [];
  transfer_limit = 0;
}

find_zone-longest_example :
    let found = find_zone plain (text "www.sub.example.") fake in
    Covering plain (text "www.sub.example.") found
    × All (λ e. size_for plain (text "www.sub.example.") e.1 ≤ size found) fake.zones
find_zone-longest_example = find_zone-longest plain (text "www.sub.example.") fake
