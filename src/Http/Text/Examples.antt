-- ===== src/Http/Text/Examples.antt =====
-- Concrete header values for src/KernelHttpLib/http/HttpTypes.cpp.
use win_kernel_http.Common.{◌≡◌, ◌&&◌, ◌==◌, not, length}
use win_kernel_http.Common.Buffer.{Bytes, bytes}
use win_kernel_http.Common.Text.{codes}
use win_kernel_http.Http.Text.{header_value_has_token}
use win_kernel_http.Http.Text.Elements.{elements}
use win_kernel_http.Http.Text.Tokens.{has_element, header_value_has_token_lem}

abbrev connection : Bytes
connection = codes " keep-alive , Upgrade"

header_value_has_token_lem_example :
    header_value_has_token (bytes connection) (bytes (codes "upgrade"))
    ≡ (not (length (codes "upgrade") == 0) && has_element (elements connection) (codes "upgrade"))
header_value_has_token_lem_example = header_value_has_token_lem connection (codes "upgrade")
