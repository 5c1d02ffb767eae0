-- ===== src/Tests/Worlds.antt =====
-- The parameters of an audit, as functions that are easy to follow.
use zone_lint.Common.{text, true, false, some, [], ◌∷◌}
use zone_lint.Dns.{Decoders}
use zone_lint.Dnssec.Keys.{Codec}
use zone_lint.Dnssec.Chain.{Hashes}
use zone_lint.Dnssec.Verify.{Primitives}
use zone_lint.Audit.{Options}
use zone_lint.Audit.Reading.{Env}
use zone_lint.Tests.Data.{plain}

abbrev pub options : Options
options = record {
  resolver = text "192.0.2.1";
  profile = [];
  timeout = 10;
  max_qps = 50;
  max_queries = 400;
  active = true;
  show_axfr = false;
}

abbrev pub hashes : Hashes
hashes = record { sha1 = λ s. s; sha256 = λ s. 2 ∷ s; sha512 = λ s. 5 ∷ s }

abbrev pub decoders : Decoders
decoders = record {
  std_base64 = λ s. some s;
  raw_base64 = λ s. some s;
  hex = λ s. some s;
  base32_hex = λ s. some s;
}

abbrev pub codec : Codec
codec = record { decoders = decoders; on_curve = λ bits point. true }

abbrev pub primitives : Primitives
primitives = record {
  hashes = hashes;
  ed25519_verify = λ key message sig. true;
  ecdsa_verify = λ bits point digest r s. true;
  rsa_verify = λ n e h digest sig. false;
}

abbrev pub env : Env
env = record {
  pkg = plain;
  codec = codec;
  prim = primitives;
  ip_string = λ ip. text "10.0.0.1";
  show_record = λ rr. rr.header.name;
  now = 1500;
  today = record { year = 2024; month = 5; day = 1 };
}
