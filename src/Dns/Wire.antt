-- ===== src/Dns/Wire.antt =====
-- internal/dns/util.go: the wire forms that have a length of their own (TXT, CAA, type bitmaps).
pub mod Decoded
pub mod Bitmap
use zone_lint.Common.{Bytes, length, take, List, [], ◌∷◌, ◌++◌, ◌%◌, ltb, if◌then◌else◌}
use zone_lint.Dns.{Caa}

-- txtRdata; byte(n) is n reduced to a byte.
unfoldable pub txt_rdata : List Bytes → Bytes
txt_rdata [] = []
txt_rdata (s ∷ ss) =
    let s' : Bytes = if ltb 255 (length s) then take 255 s else s in
    length s' % 256 ∷ (s' ++ txt_rdata ss)

-- caaRdata
unfoldable pub caa_rdata : Caa → Bytes
caa_rdata r =
    let tag : Bytes = if ltb 63 (length r.tag) then take 63 r.tag else r.tag in
    r.flag ∷ length tag % 256 ∷ (tag ++ r.value)
