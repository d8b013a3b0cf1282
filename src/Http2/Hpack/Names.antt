-- ===== src/Http2/Hpack/Names.antt =====
-- NameEquals, ValueEquals, IsSensitiveHeaderName, RangeFits, MultiplySize and AddHeaderListSize of
-- src/KernelHttpLib/http2/Hpack.cpp.
use win_kernel_http.Common.{
  ℕ, [], ◌∷◌, ◌+◌, ◌-◌, ◌*◌, ◌/◌, Bool, true, not, ◌&&◌, ◌||◌, ltb, leb, ◌==◌, if◌then◌else◌,
  Option, none, some, length,
}
use win_kernel_http.Common.Buffer.{Bytes}
use win_kernel_http.Common.Text.{codes}
use win_kernel_http.Http2.Hpack.Table.{entry_overhead, max_size_t}

-- `if (c >= 'A' && c <= 'Z') c += 32;`
abbrev pub fold_char : ℕ → ℕ
fold_char c = if leb b'A' c && leb c b'Z' then c + 32 else c

-- The loop of `NameEquals`, on bytes of the same length.
unfoldable pub same_names : Bytes → Bytes → Bool
same_names [] b = true
same_names (x ∷ a) [] = true
same_names (x ∷ a) (y ∷ b) = fold_char x == fold_char y && same_names a b

unfoldable pub name_equals : Bytes → Bytes → Bool
name_equals a b = length a == length b && same_names a b

unfoldable pub same_values : Bytes → Bytes → Bool
same_values [] b = true
same_values (x ∷ a) [] = true
same_values (x ∷ a) (y ∷ b) = x == y && same_values a b

unfoldable pub value_equals : Bytes → Bytes → Bool
value_equals a b = length a == length b && same_values a b

unfoldable pub is_sensitive_header_name : Bytes → Bool
is_sensitive_header_name name =
    name_equals name (codes "authorization")
    || name_equals name (codes "cookie")
    || name_equals name (codes "proxy-authorization")

unfoldable pub range_fits : ℕ → ℕ → ℕ → Bool
range_fits offset length capacity = leb offset capacity && leb length (capacity - offset)

-- `none` where it returns false.
unfoldable pub multiply_size : ℕ → ℕ → Option ℕ
multiply_size left right =
    if not (left == 0) && ltb (max_size_t / left) right then none else some (left * right)

-- The new `*headerListSize`; `none` where it returns false.
unfoldable pub add_header_list_size : ℕ → ℕ → ℕ → ℕ → Option ℕ
add_header_list_size name_length value_length max_header_list_size header_list_size =
    let field_size = name_length + value_length + entry_overhead in
    if ltb (max_size_t - value_length) name_length
    then none
    else if ltb (max_size_t - entry_overhead) (name_length + value_length)
    then none
    else if ltb (max_size_t - field_size) header_list_size
    then none
    else if not (max_header_list_size == max_size_t)
        && (ltb max_header_list_size field_size
            || ltb (max_header_list_size - field_size) header_list_size)
    then none
    else some (header_list_size + field_size)
