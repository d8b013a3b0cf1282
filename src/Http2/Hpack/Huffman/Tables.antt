-- ===== src/Http2/Hpack/Huffman/Tables.antt =====
-- The tables of the Huffman code: HpackHuffmanEncodeTable of
-- include/KernelHttp/http2/HpackHuffman.h and the three tables that index it by the length of a
-- code in src/KernelHttpLib/http2/Hpack.cpp.
use win_kernel_http.Common.{ℕ, List, [], ◌∷◌}

-- `Code` and `BitLength` of `HpackHuffmanSymbol`.
pub record HuffmanSymbol : Type 0 where
  pub code : ℕ
  pub bit_length : ℕ

abbrev pub entry : ℕ → ℕ → HuffmanSymbol
entry code bit_length = record { code = code; bit_length = bit_length }

-- By symbol, the end of string last.
abbrev pub huffman_encode_table : List HuffmanSymbol
huffman_encode_table =
    entry 0x1ff8 13
    ∷ entry 0x7fffd8 23
    ∷ entry 0xfffffe2 28
    ∷ entry 0xfffffe3 28
    ∷ entry 0xfffffe4 28
    ∷ entry 0xfffffe5 28
    ∷ entry 0xfffffe6 28
    ∷ entry 0xfffffe7 28
    ∷ entry 0xfffffe8 28
    ∷ entry 0xffffea 24
    ∷ entry 0x3ffffffc 30
    ∷ entry 0xfffffe9 28
    ∷ entry 0xfffffea 28
    ∷ entry 0x3ffffffd 30
    ∷ entry 0xfffffeb 28
    ∷ entry 0xfffffec 28
    ∷ entry 0xfffffed 28
    ∷ entry 0xfffffee 28
    ∷ entry 0xfffffef 28
    ∷ entry 0xffffff0 28
    ∷ entry 0xffffff1 28
    ∷ entry 0xffffff2 28
    ∷ entry 0x3ffffffe 30
    ∷ entry 0xffffff3 28
    ∷ entry 0xffffff4 28
    ∷ entry 0xffffff5 28
    ∷ entry 0xffffff6 28
    ∷ entry 0xffffff7 28
    ∷ entry 0xffffff8 28
    ∷ entry 0xffffff9 28
    ∷ entry 0xffffffa 28
    ∷ entry 0xffffffb 28
    ∷ entry 0x14 6
    ∷ entry 0x3f8 10
    ∷ entry 0x3f9 10
    ∷ entry 0xffa 12
    ∷ entry 0x1ff9 13
    ∷ entry 0x15 6
    ∷ entry 0xf8 8
    ∷ entry 0x7fa 11
    ∷ entry 0x3fa 10
    ∷ entry 0x3fb 10
    ∷ entry 0xf9 8
    ∷ entry 0x7fb 11
    ∷ entry 0xfa 8
    ∷ entry 0x16 6
    ∷ entry 0x17 6
    ∷ entry 0x18 6
    ∷ entry 0x0 5
    ∷ entry 0x1 5
    ∷ entry 0x2 5
    ∷ entry 0x19 6
    ∷ entry 0x1a 6
    ∷ entry 0x1b 6
    ∷ entry 0x1c 6
    ∷ entry 0x1d 6
    ∷ entry 0x1e 6
    ∷ entry 0x1f 6
    ∷ entry 0x5c 7
    ∷ entry 0xfb 8
    ∷ entry 0x7ffc 15
    ∷ entry 0x20 6
    ∷ entry 0xffb 12
    ∷ entry 0x3fc 10
    ∷ entry 0x1ffa 13
    ∷ entry 0x21 6
    ∷ entry 0x5d 7
    ∷ entry 0x5e 7
    ∷ entry 0x5f 7
    ∷ entry 0x60 7
    ∷ entry 0x61 7
    ∷ entry 0x62 7
    ∷ entry 0x63 7
    ∷ entry 0x64 7
    ∷ entry 0x65 7
    ∷ entry 0x66 7
    ∷ entry 0x67 7
    ∷ entry 0x68 7
    ∷ entry 0x69 7
    ∷ entry 0x6a 7
    ∷ entry 0x6b 7
    ∷ entry 0x6c 7
    ∷ entry 0x6d 7
    ∷ entry 0x6e 7
    ∷ entry 0x6f 7
    ∷ entry 0x70 7
    ∷ entry 0x71 7
    ∷ entry 0x72 7
    ∷ entry 0xfc 8
    ∷ entry 0x73 7
    ∷ entry 0xfd 8
    ∷ entry 0x1ffb 13
    ∷ entry 0x7fff0 19
    ∷ entry 0x1ffc 13
    ∷ entry 0x3ffc 14
    ∷ entry 0x22 6
    ∷ entry 0x7ffd 15
    ∷ entry 0x3 5
    ∷ entry 0x23 6
    ∷ entry 0x4 5
    ∷ entry 0x24 6
    ∷ entry 0x5 5
    ∷ entry 0x25 6
    ∷ entry 0x26 6
    ∷ entry 0x27 6
    ∷ entry 0x6 5
    ∷ entry 0x74 7
    ∷ entry 0x75 7
    ∷ entry 0x28 6
    ∷ entry 0x29 6
    ∷ entry 0x2a 6
    ∷ entry 0x7 5
    ∷ entry 0x2b 6
    ∷ entry 0x76 7
    ∷ entry 0x2c 6
    ∷ entry 0x8 5
    ∷ entry 0x9 5
    ∷ entry 0x2d 6
    ∷ entry 0x77 7
    ∷ entry 0x78 7
    ∷ entry 0x79 7
    ∷ entry 0x7a 7
    ∷ entry 0x7b 7
    ∷ entry 0x7ffe 15
    ∷ entry 0x7fc 11
    ∷ entry 0x3ffd 14
    ∷ entry 0x1ffd 13
    ∷ entry 0xffffffc 28
    ∷ entry 0xfffe6 20
    ∷ entry 0x3fffd2 22
    ∷ entry 0xfffe7 20
    ∷ entry 0xfffe8 20
    ∷ entry 0x3fffd3 22
    ∷ entry 0x3fffd4 22
    ∷ entry 0x3fffd5 22
    ∷ entry 0x7fffd9 23
    ∷ entry 0x3fffd6 22
    ∷ entry 0x7fffda 23
    ∷ entry 0x7fffdb 23
    ∷ entry 0x7fffdc 23
    ∷ entry 0x7fffdd 23
    ∷ entry 0x7fffde 23
    ∷ entry 0xffffeb 24
    ∷ entry 0x7fffdf 23
    ∷ entry 0xffffec 24
    ∷ entry 0xffffed 24
    ∷ entry 0x3fffd7 22
    ∷ entry 0x7fffe0 23
    ∷ entry 0xffffee 24
    ∷ entry 0x7fffe1 23
    ∷ entry 0x7fffe2 23
    ∷ entry 0x7fffe3 23
    ∷ entry 0x7fffe4 23
    ∷ entry 0x1fffdc 21
    ∷ entry 0x3fffd8 22
    ∷ entry 0x7fffe5 23
    ∷ entry 0x3fffd9 22
    ∷ entry 0x7fffe6 23
    ∷ entry 0x7fffe7 23
    ∷ entry 0xffffef 24
    ∷ entry 0x3fffda 22
    ∷ entry 0x1fffdd 21
    ∷ entry 0xfffe9 20
    ∷ entry 0x3fffdb 22
    ∷ entry 0x3fffdc 22
    ∷ entry 0x7fffe8 23
    ∷ entry 0x7fffe9 23
    ∷ entry 0x1fffde 21
    ∷ entry 0x7fffea 23
    ∷ entry 0x3fffdd 22
    ∷ entry 0x3fffde 22
    ∷ entry 0xfffff0 24
    ∷ entry 0x1fffdf 21
    ∷ entry 0x3fffdf 22
    ∷ entry 0x7fffeb 23
    ∷ entry 0x7fffec 23
    ∷ entry 0x1fffe0 21
    ∷ entry 0x1fffe1 21
    ∷ entry 0x3fffe0 22
    ∷ entry 0x1fffe2 21
    ∷ entry 0x7fffed 23
    ∷ entry 0x3fffe1 22
    ∷ entry 0x7fffee 23
    ∷ entry 0x7fffef 23
    ∷ entry 0xfffea 20
    ∷ entry 0x3fffe2 22
    ∷ entry 0x3fffe3 22
    ∷ entry 0x3fffe4 22
    ∷ entry 0x7ffff0 23
    ∷ entry 0x3fffe5 22
    ∷ entry 0x3fffe6 22
    ∷ entry 0x7ffff1 23
    ∷ entry 0x3ffffe0 26
    ∷ entry 0x3ffffe1 26
    ∷ entry 0xfffeb 20
    ∷ entry 0x7fff1 19
    ∷ entry 0x3fffe7 22
    ∷ entry 0x7ffff2 23
    ∷ entry 0x3fffe8 22
    ∷ entry 0x1ffffec 25
    ∷ entry 0x3ffffe2 26
    ∷ entry 0x3ffffe3 26
    ∷ entry 0x3ffffe4 26
    ∷ entry 0x7ffffde 27
    ∷ entry 0x7ffffdf 27
    ∷ entry 0x3ffffe5 26
    ∷ entry 0xfffff1 24
    ∷ entry 0x1ffffed 25
    ∷ entry 0x7fff2 19
    ∷ entry 0x1fffe3 21
    ∷ entry 0x3ffffe6 26
    ∷ entry 0x7ffffe0 27
    ∷ entry 0x7ffffe1 27
    ∷ entry 0x3ffffe7 26
    ∷ entry 0x7ffffe2 27
    ∷ entry 0xfffff2 24
    ∷ entry 0x1fffe4 21
    ∷ entry 0x1fffe5 21
    ∷ entry 0x3ffffe8 26
    ∷ entry 0x3ffffe9 26
    ∷ entry 0xffffffd 28
    ∷ entry 0x7ffffe3 27
    ∷ entry 0x7ffffe4 27
    ∷ entry 0x7ffffe5 27
    ∷ entry 0xfffec 20
    ∷ entry 0xfffff3 24
    ∷ entry 0xfffed 20
    ∷ entry 0x1fffe6 21
    ∷ entry 0x3fffe9 22
    ∷ entry 0x1fffe7 21
    ∷ entry 0x1fffe8 21
    ∷ entry 0x7ffff3 23
    ∷ entry 0x3fffea 22
    ∷ entry 0x3fffeb 22
    ∷ entry 0x1ffffee 25
    ∷ entry 0x1ffffef 25
    ∷ entry 0xfffff4 24
    ∷ entry 0xfffff5 24
    ∷ entry 0x3ffffea 26
    ∷ entry 0x7ffff4 23
    ∷ entry 0x3ffffeb 26
    ∷ entry 0x7ffffe6 27
    ∷ entry 0x3ffffec 26
    ∷ entry 0x3ffffed 26
    ∷ entry 0x7ffffe7 27
    ∷ entry 0x7ffffe8 27
    ∷ entry 0x7ffffe9 27
    ∷ entry 0x7ffffea 27
    ∷ entry 0x7ffffeb 27
    ∷ entry 0xffffffe 28
    ∷ entry 0x7ffffec 27
    ∷ entry 0x7ffffed 27
    ∷ entry 0x7ffffee 27
    ∷ entry 0x7ffffef 27
    ∷ entry 0x7fffff0 27
    ∷ entry 0x3ffffee 26
    ∷ entry 0x3fffffff 30
    ∷ []

abbrev pub huffman_symbols_by_length : List ℕ
huffman_symbols_by_length =
    48 ∷ 49 ∷ 50 ∷ 97 ∷ 99 ∷ 101 ∷ 105 ∷ 111 ∷ 115 ∷ 116 ∷ 32 ∷ 37 ∷ 45 ∷ 46 ∷ 47 ∷ 51 ∷ 52 ∷ 53
    ∷ 54 ∷ 55 ∷ 56 ∷ 57 ∷ 61 ∷ 65 ∷ 95 ∷ 98 ∷ 100 ∷ 102 ∷ 103 ∷ 104 ∷ 108 ∷ 109 ∷ 110 ∷ 112 ∷ 114
    ∷ 117 ∷ 58 ∷ 66 ∷ 67 ∷ 68 ∷ 69 ∷ 70 ∷ 71 ∷ 72 ∷ 73 ∷ 74 ∷ 75 ∷ 76 ∷ 77 ∷ 78 ∷ 79 ∷ 80 ∷ 81 ∷ 82
    ∷ 83 ∷ 84 ∷ 85 ∷ 86 ∷ 87 ∷ 89 ∷ 106 ∷ 107 ∷ 113 ∷ 118 ∷ 119 ∷ 120 ∷ 121 ∷ 122 ∷ 38 ∷ 42 ∷ 44
    ∷ 59 ∷ 88 ∷ 90 ∷ 33 ∷ 34 ∷ 40 ∷ 41 ∷ 63 ∷ 39 ∷ 43 ∷ 124 ∷ 35 ∷ 62 ∷ 0 ∷ 36 ∷ 64 ∷ 91 ∷ 93 ∷ 126
    ∷ 94 ∷ 125 ∷ 60 ∷ 96 ∷ 123 ∷ 92 ∷ 195 ∷ 208 ∷ 128 ∷ 130 ∷ 131 ∷ 162 ∷ 184 ∷ 194 ∷ 224 ∷ 226
    ∷ 153 ∷ 161 ∷ 167 ∷ 172 ∷ 176 ∷ 177 ∷ 179 ∷ 209 ∷ 216 ∷ 217 ∷ 227 ∷ 229 ∷ 230 ∷ 129 ∷ 132 ∷ 133
    ∷ 134 ∷ 136 ∷ 146 ∷ 154 ∷ 156 ∷ 160 ∷ 163 ∷ 164 ∷ 169 ∷ 170 ∷ 173 ∷ 178 ∷ 181 ∷ 185 ∷ 186 ∷ 187
    ∷ 189 ∷ 190 ∷ 196 ∷ 198 ∷ 228 ∷ 232 ∷ 233 ∷ 1 ∷ 135 ∷ 137 ∷ 138 ∷ 139 ∷ 140 ∷ 141 ∷ 143 ∷ 147
    ∷ 149 ∷ 150 ∷ 151 ∷ 152 ∷ 155 ∷ 157 ∷ 158 ∷ 165 ∷ 166 ∷ 168 ∷ 174 ∷ 175 ∷ 180 ∷ 182 ∷ 183 ∷ 188
    ∷ 191 ∷ 197 ∷ 231 ∷ 239 ∷ 9 ∷ 142 ∷ 144 ∷ 145 ∷ 148 ∷ 159 ∷ 171 ∷ 206 ∷ 215 ∷ 225 ∷ 236 ∷ 237
    ∷ 199 ∷ 207 ∷ 234 ∷ 235 ∷ 192 ∷ 193 ∷ 200 ∷ 201 ∷ 202 ∷ 205 ∷ 210 ∷ 213 ∷ 218 ∷ 219 ∷ 238 ∷ 240
    ∷ 242 ∷ 243 ∷ 255 ∷ 203 ∷ 204 ∷ 211 ∷ 212 ∷ 214 ∷ 221 ∷ 222 ∷ 223 ∷ 241 ∷ 244 ∷ 245 ∷ 246 ∷ 247
    ∷ 248 ∷ 250 ∷ 251 ∷ 252 ∷ 253 ∷ 254 ∷ 2 ∷ 3 ∷ 4 ∷ 5 ∷ 6 ∷ 7 ∷ 8 ∷ 11 ∷ 12 ∷ 14 ∷ 15 ∷ 16 ∷ 17
    ∷ 18 ∷ 19 ∷ 20 ∷ 21 ∷ 23 ∷ 24 ∷ 25 ∷ 26 ∷ 27 ∷ 28 ∷ 29 ∷ 30 ∷ 31 ∷ 127 ∷ 220 ∷ 249 ∷ 10 ∷ 13
    ∷ 22 ∷ 256 ∷ []

abbrev pub huffman_length_offsets : List ℕ
huffman_length_offsets =
    0 ∷ 0 ∷ 0 ∷ 0 ∷ 0 ∷ 0 ∷ 10 ∷ 36 ∷ 68 ∷ 74 ∷ 74 ∷ 79 ∷ 82 ∷ 84 ∷ 90 ∷ 92 ∷ 95 ∷ 95 ∷ 95 ∷ 95 ∷ 98
    ∷ 106 ∷ 119 ∷ 145 ∷ 174 ∷ 186 ∷ 190 ∷ 205 ∷ 224 ∷ 253 ∷ 253 ∷ 257 ∷ []

abbrev pub huffman_length_counts : List ℕ
huffman_length_counts =
    0 ∷ 0 ∷ 0 ∷ 0 ∷ 0 ∷ 10 ∷ 26 ∷ 32 ∷ 6 ∷ 0 ∷ 5 ∷ 3 ∷ 2 ∷ 6 ∷ 2 ∷ 3 ∷ 0 ∷ 0 ∷ 0 ∷ 3 ∷ 8 ∷ 13 ∷ 26
    ∷ 29 ∷ 12 ∷ 4 ∷ 15 ∷ 19 ∷ 29 ∷ 0 ∷ 4 ∷ 0 ∷ []
