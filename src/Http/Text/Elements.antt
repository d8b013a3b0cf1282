-- ===== src/Http/Text/Elements.antt =====
-- Comma-separated lists, and how the scans of src/KernelHttpLib/http/HttpTypes.cpp and
-- src/KernelHttpLib/websocket/WebSocketFrame.cpp pass through them.
use win_kernel_http.Common.{List, [], ◌∷◌, ◌≤◌, ◌≡◌, refl, ◌==◌, if◌then◌else◌, length, arith}
use win_kernel_http.Common.Buffer.{Bytes}
use win_kernel_http.Http.Text.{until_comma, from_comma}

-- The elements of a comma-separated list, in order; a text without a comma is one element.
abbrev pub elements : Bytes → List Bytes
elements [] = [] ∷ []
elements (c ∷ text) = elim (elements text) [
  | [] ↦ []
  | first ∷ others ↦ if c == b',' then [] ∷ first ∷ others else (c ∷ first) ∷ others
]

-- What stands behind the next comma, as elements.
abbrev pub behind_comma : Bytes → List Bytes
behind_comma [] = []
behind_comma (comma ∷ behind) = elements behind

-- The elements, one scan at a time.
pub elements-from_comma :
    (text : Bytes) → elements text ≡ until_comma text ∷ behind_comma (from_comma text)
unfolding until_comma from_comma
elements-from_comma [] = refl
elements-from_comma (c ∷ text) = ground (arith, elements-from_comma text)

pub length-from_comma : (text : Bytes) → length (from_comma text) ≤ length text
unfolding from_comma
length-from_comma [] = omega arith
length-from_comma (c ∷ text) = ground (arith, length-from_comma text)
