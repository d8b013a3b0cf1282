-- ===== src/Http2/Hpack/StaticTable.antt =====
-- HpackStaticTable of include/KernelHttp/http2/HpackStaticTable.h.
use win_kernel_http.Common.{ℕ, List, [], ◌∷◌}
use win_kernel_http.Common.Text.{codes}
use win_kernel_http.Http2.Hpack.Table.{Field}
use Prim.Native.String.{String}

-- `NameLength` and `ValueLength` are the lengths of the two literals.
abbrev static_entry : String → String → Field
static_entry name value = record { name = codes name; value = codes value }

-- `HpackStaticTableSize`
abbrev pub static_table_size : ℕ
static_table_size = 61

unfoldable pub static_table : List Field
static_table =
    static_entry ":authority" ""
    ∷ static_entry ":method" "GET"
    ∷ static_entry ":method" "POST"
    ∷ static_entry ":path" "/"
    ∷ static_entry ":path" "/index.html"
    ∷ static_entry ":scheme" "http"
    ∷ static_entry ":scheme" "https"
    ∷ static_entry ":status" "200"
    ∷ static_entry ":status" "204"
    ∷ static_entry ":status" "206"
    ∷ static_entry ":status" "304"
    ∷ static_entry ":status" "400"
    ∷ static_entry ":status" "404"
    ∷ static_entry ":status" "500"
    ∷ static_entry "accept-charset" ""
    ∷ static_entry "accept-encoding" "gzip, deflate"
    ∷ static_entry "accept-language" ""
    ∷ static_entry "accept-ranges" ""
    ∷ static_entry "accept" ""
    ∷ static_entry "access-control-allow-origin" ""
    ∷ static_entry "age" ""
    ∷ static_entry "allow" ""
    ∷ static_entry "authorization" ""
    ∷ static_entry "cache-control" ""
    ∷ static_entry "content-disposition" ""
    ∷ static_entry "content-encoding" ""
    ∷ static_entry "content-language" ""
    ∷ static_entry "content-length" ""
    ∷ static_entry "content-location" ""
    ∷ static_entry "content-range" ""
    ∷ static_entry "content-type" ""
    ∷ static_entry "cookie" ""
    ∷ static_entry "date" ""
    ∷ static_entry "etag" ""
    ∷ static_entry "expect" ""
    ∷ static_entry "expires" ""
    ∷ static_entry "from" ""
    ∷ static_entry "host" ""
    ∷ static_entry "if-match" ""
    ∷ static_entry "if-modified-since" ""
    ∷ static_entry "if-none-match" ""
    ∷ static_entry "if-range" ""
    ∷ static_entry "if-unmodified-since" ""
    ∷ static_entry "last-modified" ""
    ∷ static_entry "link" ""
    ∷ static_entry "location" ""
    ∷ static_entry "max-forwards" ""
    ∷ static_entry "proxy-authenticate" ""
    ∷ static_entry "proxy-authorization" ""
    ∷ static_entry "range" ""
    ∷ static_entry "referer" ""
    ∷ static_entry "refresh" ""
    ∷ static_entry "retry-after" ""
    ∷ static_entry "server" ""
    ∷ static_entry "set-cookie" ""
    ∷ static_entry "strict-transport-security" ""
    ∷ static_entry "transfer-encoding" ""
    ∷ static_entry "user-agent" ""
    ∷ static_entry "vary" ""
    ∷ static_entry "via" ""
    ∷ static_entry "www-authenticate" ""
    ∷ []
