-- ===== src/Findings/Urls.antt =====
-- internal/findings/catalog.go: the reference URLs.
use zone_lint.Common.{Bytes, text}

unfoldable pub rfc1035 : Bytes
rfc1035 = text "https://www.rfc-editor.org/rfc/rfc1035"

unfoldable pub rfc1034 : Bytes
rfc1034 = text "https://www.rfc-editor.org/rfc/rfc1034"

unfoldable pub rfc1918 : Bytes
rfc1918 = text "https://www.rfc-editor.org/rfc/rfc1918"

unfoldable pub rfc1969 : Bytes
rfc1969 = text "https://www.rfc-editor.org/rfc/rfc1969"

unfoldable pub rfc1982 : Bytes
rfc1982 = text "https://www.rfc-editor.org/rfc/rfc1982"

unfoldable pub rfc1996 : Bytes
rfc1996 = text "https://www.rfc-editor.org/rfc/rfc1996"

unfoldable pub rfc2181 : Bytes
rfc2181 = text "https://www.rfc-editor.org/rfc/rfc2181"

unfoldable pub rfc2308 : Bytes
rfc2308 = text "https://www.rfc-editor.org/rfc/rfc2308"

unfoldable pub rfc4034 : Bytes
rfc4034 = text "https://www.rfc-editor.org/rfc/rfc4034"

unfoldable pub rfc4035 : Bytes
rfc4035 = text "https://www.rfc-editor.org/rfc/rfc4035"

unfoldable pub rfc4592 : Bytes
rfc4592 = text "https://www.rfc-editor.org/rfc/rfc4592"

unfoldable pub rfc5155 : Bytes
rfc5155 = text "https://www.rfc-editor.org/rfc/rfc5155"

unfoldable pub rfc5936 : Bytes
rfc5936 = text "https://www.rfc-editor.org/rfc/rfc5936"

unfoldable pub rfc5321 : Bytes
rfc5321 = text "https://www.rfc-editor.org/rfc/rfc5321"

unfoldable pub rfc6762 : Bytes
rfc6762 = text "https://www.rfc-editor.org/rfc/rfc6762"

unfoldable pub rfc6890 : Bytes
rfc6890 = text "https://www.rfc-editor.org/rfc/rfc6890"

unfoldable pub rfc6891 : Bytes
rfc6891 = text "https://www.rfc-editor.org/rfc/rfc6891"

unfoldable pub rfc7505 : Bytes
rfc7505 = text "https://www.rfc-editor.org/rfc/rfc7505"

unfoldable pub rfc8020 : Bytes
rfc8020 = text "https://www.rfc-editor.org/rfc/rfc8020"

unfoldable pub rfc8659 : Bytes
rfc8659 = text "https://www.rfc-editor.org/rfc/rfc8659"
