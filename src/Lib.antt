-- ===== src/Lib.antt =====
-- ZoneLint is a read-only DNS audit tool. The command line (cmd/zonelint/main.go) runs one audit for
-- each domain (internal/audit/audit.go). The audit sends queries through a resolver
-- (internal/resolver), hands the responses to the checks (one package each under internal/), collects
-- their findings, sorts them (internal/findings) and gives them to the report (internal/report). A
-- budget (internal/budget) bounds what is sent.
--
-- Files and code:
-- - Findings, Findings/Severity, Findings/Sorting, Findings/Tally: internal/findings/findings.go.
--   Findings/Urls, Findings/Catalog and its children: internal/findings/catalog.go, all 51 rules.
-- - Budget, Budget/Counter, Budget/Limiter, Budget/Semaphore: internal/budget/budget.go.
-- - Dns: the types of github.com/miekg/dns that the checks read; its functions are the record
--   Package. Dns/Codes: the IANA numbers. Dns/Records, Dns/Query, Dns/Wire, Dns/Wire/Bitmap and
--   Dns/Rdata: internal/dns/util.go, its selectors, query messages, wire forms of TXT and CAA
--   records, type bitmaps, and RRData with the other encoders.
-- - Checks/Addrs, AuthServer, Axfr, Caa, Cname, Delegation, Nsec, Soa, Ttl: the packages of the same
--   names under internal/. Checks/Probes: internal/active and internal/wildcard.
-- - Dnssec, Dnssec/Keys, Dnssec/Chain, Dnssec/Presence: internal/dnssec (parse.go and helpers.go,
--   chain.go, check.go). Dnssec/Signed: signedData of chain.go. Dnssec/Verify: Verify of parse.go and
--   VerifyRRSIGForType of chain.go.
-- - Audit: internal/audit/audit.go. Audit/Session: how Run reaches the resolver, with the counter of
--   its queries. Audit/Gather: collectApexRecords and collectDNSSEC. Audit/Signatures:
--   verifySignatures. Audit/Reading: the steps of Run that only read. Audit/Run: Run, which composes
--   all of them. Audit/Network: New, an audit over the network resolver.
-- - Resolver: internal/resolver/network.go, over the counter, the limiter and the semaphore of Budget.
--   Resolver/Fake: internal/resolver/fake.go.
-- - Report: internal/report/report.go. Main: run and writeReport of cmd/zonelint/main.go.
-- - Common: names passed on, lists over native numbers, texts, dictionaries, orders, sorting.
-- - Tests: concrete inputs, and the theorems at them.
-- A function has the name of the Go function in snake case; the helpers beside it are the bodies of
-- its loops. The children of a component's module (Rules, Walk, Bounded, ...) hold its theorems.
--
-- Conventions:
-- - A text is the list of its code points, which are its bytes where the text is ASCII;
--   strings.ToLower and TrimSpace are modelled on ASCII, strings.EqualFold where one of the two texts
--   is ASCII. A nil pointer, a missing key and an error are none.
-- - A Go map is a list of its entries. Where the program iterates over a map, the model walks the list,
--   and the theorems hold of every list, so of every order of iteration.
-- - Integers are natural numbers, with the reduction written out where the source computes in uint32
--   (day_number, serial_issues, tag_sum, key_tag). A count that is not positive is 0.
-- - slices.SortStableFunc and sort.Strings are an insertion sort, which has the same result.
-- - walk_loop and root_loop run on fuel 102, because the source stops a chain above 100 names; that
--   the fuel is enough is part of the theorem on walk.
-- - time.Now is an argument: the day in Checks/Soa, seconds in Dnssec; an audit takes place at one
--   time.
-- - The state of what lies outside is a type of its own, W, which every call of the resolver, of the
--   random generator or of the network changes. The audit sees a resolver through the record Outside,
--   the network resolver sees the network, the clock and its context through the record Wire.
-- - A call that blocks for good, on an acquire or a release of the semaphore, is none in Resolver. Its loop over attempts runs on their number.
-- - The mutex makes each operation of the budget one step, so goroutines are sequences of operations;
--   the semaphore is a step relation.
--
-- Parameters: the functions of miekg/dns (Package), net.IP.String (ip_string), RR.String
-- (show_record), the decoders of encoding/base64, hex and base32 (Decoders), the curve test (Codec),
-- the hash functions (Hashes) and the signature checks of crypto (Primitives), encoding/json (Marshal),
-- the flag parser (parse), the network, the clock, contexts and random bytes (Wire, Outside), and for a
-- run of the command the audit and the output (World). An exchange or a query answers with a message
-- exactly where it returns no error.
--
-- Not modelled: the identifiers and questions that a response repeats; the goroutine in send, of
-- which the model keeps that the answer is dropped if its time runs out first; what Wait of the rate
-- limiter does behind its first round, which always admits a call; build information, which the
-- linker fills in; and the lines printed on stderr. The theorems say nothing of these.
pub mod Audit
pub mod Budget
pub mod Checks
pub mod Common
pub mod Dns
pub mod Dnssec
pub mod Findings
pub mod Main
pub mod Report
pub mod Resolver
mod Tests
