-- ===== src/Resolver/Records.antt =====
-- Which records a transfer keeps.
use zone_lint.Common.{
  append-nil, append_assoc, ℕ, length, length-append, List, [], ◌∷◌, ◌++◌, Option, none, some, ◌≡◌,
  ◌≤◌, ◌<◌, ◌+◌, sym, ◌∙◌, arith, false, leb, max,
}
use zone_lint.Dns.{Slot, Msg}
use zone_lint.Resolver.{take_records, transfer_bound, extract_transfer}

-- The records of a section that are not nil.
abbrev pub present : List Slot → List Slot
present [] = []
present (none ∷ rest) = present rest
present (some rr ∷ rest) = some rr ∷ present rest

take_records-length :
    (bound : ℕ) (rrs out : List Slot)
    → length (take_records bound rrs out) ≤ max bound (length out + 1)
unfolding take_records
take_records-length bound [] out = omega arith
take_records-length bound (none ∷ rest) out = take_records-length bound rest out
take_records-length bound (some rr ∷ rest) out =
    ground (
      arith,
      take_records-length bound rest (out ++ some rr ∷ []),
      length-append out (some rr ∷ []),
    )

take_records-few :
    (bound : ℕ) (rrs out : List Slot)
    → length out + length (present rrs) < bound
    → take_records bound rrs out ≡ out ++ present rrs
unfolding take_records
take_records-few bound [] out h = sym (append-nil out)
take_records-few bound (none ∷ rest) out h = take_records-few bound rest out h
take_records-few bound (some rr ∷ rest) out h =
    let longer = length-append out (some rr ∷ []) in
    let short : leb bound (length (out ++ some rr ∷ [])) ≡ false = ground (arith, longer) in
    rw (short, take_records)
      (take_records-few bound rest (out ++ some rr ∷ []) (omega (arith, longer))
        ∙ append_assoc out (some rr ∷ []) (present rest))

-- A transfer keeps at most 100001 records, one more than the bound of the source, however long the
-- response is.
pub extract_transfer-length :
    (resp : Option Msg) → length (extract_transfer resp) ≤ transfer_bound + 1
unfolding extract_transfer
extract_transfer-length none = omega arith
extract_transfer-length (some resp) =
    let first = take_records transfer_bound resp.answer [] in
    omega (
      arith,
      take_records-length transfer_bound resp.answer [],
      take_records-length transfer_bound resp.ns first,
    )

-- A response with fewer than 100000 records that are not nil is kept whole, the answer section
-- first.
pub extract_transfer-few :
    (resp : Msg)
    → length (present resp.answer) + length (present resp.ns) < transfer_bound
    → extract_transfer (some resp) ≡ present resp.answer ++ present resp.ns
unfolding extract_transfer
extract_transfer-few resp h =
    let answer : take_records transfer_bound resp.answer [] ≡ present resp.answer =
      take_records-few transfer_bound resp.answer [] (omega arith) in
    rw answer (take_records-few transfer_bound resp.ns (present resp.answer) h)
