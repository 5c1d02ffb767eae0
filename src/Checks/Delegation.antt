-- ===== src/Checks/Delegation.antt =====
-- internal/delegation/delegation.go: the parent's and the child's view of a delegation.
pub mod Consistency
pub mod Short
use zone_lint.Common.{
  ℕ, ◌-◌, Bytes, text, eqb, to_lower, join, length, drop, when, List, [], ◌∷◌, ◌++◌, Bool, true,
  false, ◌&&◌, ◌||◌, not, leb, ltb, Option, none, some, ◌==◌, if◌then◌else◌,
}
use zone_lint.Common.Dict.{Dict, items, push}
use zone_lint.Common.Order.{compare_text}
use zone_lint.Common.Sort.{sort_by}
use zone_lint.Dns.{Ip, a, aaaa, Rr, Slot, Msg, Package}
use zone_lint.Dns.Records.{rr_by_name, ns_names}
use zone_lint.Findings.{Finding, new, with_zone}
use zone_lint.Findings.Catalog.{
  deleg_inconsistent_ns, deleg_lame, deleg_non_auth_ns, deleg_missing_glue,
}

-- ParentView and ChildView, with the fields that are read.
pub record ParentView : Type 0 where
  pub ns : List Bytes
  pub ns_rr : List Rr
  pub glue : Dict (List Ip)
  pub glue_aaaa : Dict (List Ip)

pub record ChildView : Type 0 where
  pub ns : List Bytes
  pub ns_rr : List Rr
  pub ns_addr : Dict (List Ip)
  pub ns_addr_aaaa : Dict (List Ip)
  pub authoritative : Bool

-- sortedNames
unfoldable pub sorted_names : List Bytes → List Bytes
sorted_names = sort_by compare_text

-- equalSets: the same length, and the same name at each index.
unfoldable pub equal_sets : List Bytes → List Bytes → Bool
equal_sets [] [] = true
equal_sets [] (_ ∷ _) = false
equal_sets (_ ∷ _) [] = false
equal_sets (x ∷ xs) (y ∷ ys) = eqb x y && equal_sets xs ys

-- contains
unfoldable pub contains : List Bytes → Bytes → Bool
contains [] s = false
contains (x ∷ xs) s = eqb x s || contains xs s

-- hasSuffix
unfoldable pub has_suffix : Bytes → Bytes → Bool
has_suffix s suffix =
    leb (length suffix) (length s) && eqb (drop (length s - length suffix) s) suffix

-- isSubDomain
unfoldable pub is_sub_domain : Package → Bytes → Bytes → Bool
is_sub_domain pkg name zone =
    let n = pkg.fqdn (to_lower name) in
    let z = pkg.fqdn (to_lower zone) in eqb n z || has_suffix n (b'.' ∷ z)

-- The verb %v on a []string.
unfoldable pub show_names : List Bytes → Bytes
show_names names = b'[' ∷ (join (text " ") names ++ b']' ∷ [])

-- The first loop over the parent's name servers.
unfoldable pub non_auth_findings : Bytes → List Bytes → List Bytes → List Finding
non_auth_findings zone child [] = []
non_auth_findings zone child (host ∷ rest) =
    when (not (contains child host)) (
      with_zone
        (new deleg_non_auth_ns host
          (text
            "The parent lists a name server that the child authoritative server does not include in its own NS set.")
          ((text "parent NS: " ++ host) ∷ []))
        zone)
    ++ non_auth_findings zone child rest

-- len(m[host]) == 0
unfoldable pub lacks : Bytes → Dict (List Ip) → Bool
lacks host m = length (items host m) == 0

-- The second loop over them.
unfoldable pub glue_findings : Package → Bytes → ParentView → List Bytes → List Finding
glue_findings pkg zone parent [] = []
glue_findings pkg zone parent (host ∷ rest) =
    when (is_sub_domain pkg host zone && (lacks host parent.glue && lacks host parent.glue_aaaa)) (
      with_zone
        (new deleg_missing_glue host
          (text
            "An in-bailiwick name server has no glue A/AAAA records, so resolvers cannot reach it.")
          ((text "NS " ++ (host ++ text " has no glue")) ∷ []))
        zone)
    ++ glue_findings pkg zone parent rest

unfoldable pub inconsistent_finding : Bytes → List Bytes → List Bytes → Finding
inconsistent_finding zone parent_ns child_ns =
    new deleg_inconsistent_ns zone
      (text
        "The parent zone delegates with a different set of name servers than the child authoritative server claims to serve.")
      ((text "parent NS: " ++ show_names parent_ns)
        ∷ (text "child NS: " ++ show_names child_ns)
        ∷ [])

unfoldable pub lame_finding : Bytes → Finding
lame_finding zone =
    with_zone
      (new deleg_lame (text "zone apex")
        (text
          "The authoritative server for the zone did not respond authoritatively (AA=0) to a zone NS/SOA query.")
        [])
      zone

-- Compare
unfoldable pub compare_views : Package → Bytes → ParentView → ChildView → List Finding
compare_views pkg zone parent child =
    let parent_ns = sorted_names parent.ns in
    let child_ns = sorted_names child.ns in
    when (not (equal_sets parent_ns child_ns)) (inconsistent_finding zone parent_ns child_ns)
    ++ (when (not child.authoritative && ltb 0 (length child.ns)) (lame_finding zone)
        ++ (non_auth_findings zone child_ns parent_ns ++ glue_findings pkg zone parent parent_ns))

-- The NS records at the name, of the answer and then of the authority section.
unfoldable pub ns_records : Package → Msg → Bytes → List Rr
ns_records pkg resp name =
    let fqdn = pkg.fqdn (to_lower name) in
    items fqdn (rr_by_name pkg resp.answer) ++ items fqdn (rr_by_name pkg resp.ns)

-- The loops that collect addresses by owner: those of A records, and those of AAAA records.
unfoldable pub collect_a : List Slot → Dict (List Ip) → Dict (List Ip)
collect_a [] m = m
collect_a (none ∷ rest) m = collect_a rest m
collect_a (some rr ∷ rest) m =
    collect_a rest (elim rr.body [ a ip ↦ push (to_lower rr.header.name) ip m | _ ↦ m ])

unfoldable pub collect_aaaa : List Slot → Dict (List Ip) → Dict (List Ip)
collect_aaaa [] m = m
collect_aaaa (none ∷ rest) m = collect_aaaa rest m
collect_aaaa (some rr ∷ rest) m =
    collect_aaaa rest (elim rr.body [ aaaa ip ↦ push (to_lower rr.header.name) ip m | _ ↦ m ])

abbrev slots : List Rr → List Slot
slots [] = []
slots (rr ∷ rest) = some rr ∷ slots rest

-- ExtractNSFromResponse
unfoldable pub extract_ns_from_response : Package → Msg → Bytes → ParentView
extract_ns_from_response pkg resp name = record {
  ns = ns_names (slots (ns_records pkg resp name));
  ns_rr = ns_records pkg resp name;
  glue = collect_a resp.answer [];
  glue_aaaa = collect_aaaa resp.answer [];
}

-- ExtractChildFromResponse: the addresses come from both sections here.
unfoldable pub extract_child_from_response : Package → Msg → Bytes → ChildView
extract_child_from_response pkg resp zone = record {
  ns = ns_names (slots (ns_records pkg resp zone));
  ns_rr = ns_records pkg resp zone;
  ns_addr = collect_a (resp.answer ++ resp.ns) [];
  ns_addr_aaaa = collect_aaaa (resp.answer ++ resp.ns) [];
  authoritative = false;
}
