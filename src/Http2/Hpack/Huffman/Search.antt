-- ===== src/Http2/Hpack/Huffman/Search.antt =====
-- The search of src/KernelHttpLib/http2/Hpack.cpp for the symbol of a code: the codes of a length
-- are consecutive, and the code of a symbol begins above those that are shorter.
use win_kernel_http.Common.{
  ℕ, suc, List, [], ◌∷◌, ◌+◌, ◌-◌, ◌/◌, ◌^◌, ◌≤◌, ◌<◌, ◌≡◌, refl, Bool, true, ◌&&◌, ◌||◌, ltb, leb,
  ◌==◌, none, some, length, get_or, arith, inl, inr, Bool-cases,
}
use win_kernel_http.Common.Bits.{every_below, every_below_at}
use win_kernel_http.Http2.Hpack.Huffman.{
  huffman_symbol, find_among, candidates, find_huffman_symbol,
}

abbrev consecutive : ℕ → List ℕ → Bool
consecutive first [] = true
consecutive first (x ∷ xs) = (huffman_symbol x).code == first && consecutive (suc first) xs

-- The least code of a length.
abbrev first_code : ℕ → ℕ
first_code bit_length = (huffman_symbol (get_or (candidates bit_length) 0 0)).code

codes_are_consecutive : every_below 31 (λ k. consecutive (first_code k) (candidates k)) ≡ true
unfolding every_below candidates huffman_symbol
codes_are_consecutive = refl

find_among-none : (code : ℕ) (xs : List ℕ) → length xs ≡ 0 → find_among xs code ≡ none
unfolding find_among
find_among-none code [] h = refl
find_among-none code (x ∷ xs) h = absurd (omega arith)

find_among-above :
    (first code : ℕ) (xs : List ℕ)
    → consecutive first xs ≡ true
    → first + length xs ≤ code
    → find_among xs code ≡ none
unfolding find_among
find_among-above first code [] h le = refl
find_among-above first code (x ∷ xs) h le = ground (arith, find_among-above (suc first) code xs)

find_among-at :
    (first code : ℕ) (xs : List ℕ)
    → consecutive first xs ≡ true
    → first ≤ code
    → code - first < length xs
    → find_among xs code ≡ some (get_or xs (code - first) 0)
unfolding find_among
find_among-at first code [] h le lt = absurd (omega arith)
find_among-at first code (x ∷ xs) h le lt = elim (Bool-cases (code == first)) [
  | inl same ↦ let z : code - first ≡ 0 = ground arith in rw z (ground arith)
  | inr other ↦
      let z : code - first ≡ suc (code - suc first) = ground arith in
      let rest = find_among-at (suc first) code xs in rw z (ground (arith, rest))
]

-- No part of the symbol's code from its highest bit on is a code.
abbrev stands_alone : ℕ → ℕ → ℕ → Bool
stands_alone code bit_length k =
    length (candidates k) == 0
    || leb (first_code k + length (candidates k)) (code / 2 ^ (bit_length - k))

abbrev is_found : ℕ → Bool
is_found s =
    let c = (huffman_symbol s).code in
    let n = (huffman_symbol s).bit_length in
    (leb 5 n && leb n 30 && ltb c (2 ^ n))
    && (leb (first_code n) c && ltb (c - first_code n) (length (candidates n)))
    && get_or (candidates n) (c - first_code n) 0 == s
    && every_below n (stands_alone c n)

symbols_are_found : every_below 257 is_found ≡ true
unfolding every_below candidates huffman_symbol
symbols_are_found = refl

abbrev all_of_length : ℕ → List ℕ → Bool
all_of_length n [] = true
all_of_length n (x ∷ xs) = (huffman_symbol x).bit_length == n && leb x 256 && all_of_length n xs

candidates_are_of_length : every_below 31 (λ k. all_of_length k (candidates k)) ≡ true
unfolding every_below candidates huffman_symbol
candidates_are_of_length = refl

module _ (s : ℕ) (small : s < 257) where
  open huffman_symbol s use {code, bit_length}

  found : is_found s ≡ true
  found = every_below_at 257 is_found s symbols_are_found small

  pub symbol_bounds : (5 ≤ bit_length) × (bit_length ≤ 30) × (code < 2 ^ bit_length)
  symbol_bounds = ground (arith, found)

  consecutive_at : (k : ℕ) → k ≤ 30 → consecutive (first_code k) (candidates k) ≡ true
  consecutive_at k h = every_below_at 31 _ k codes_are_consecutive (omega arith)

  pub find-code : find_huffman_symbol code bit_length ≡ some s
  unfolding find_huffman_symbol
  find-code =
      let at =
        find_among-at (first_code bit_length) code (candidates bit_length)
          (consecutive_at bit_length (symbol_bounds.1)) in
      ground (arith, found, at)

  pub find-part :
      (k : ℕ) → k < bit_length → find_huffman_symbol (code / 2 ^ (bit_length - k)) k ≡ none
  unfolding find_huffman_symbol
  find-part k lt =
      let alone =
        every_below_at bit_length (stands_alone code bit_length) k (ground (arith, found)) lt in
      let above =
        find_among-above (first_code k) (code / 2 ^ (bit_length - k)) (candidates k)
          (consecutive_at k (omega (arith, symbol_bounds))) in
      let short : k < 32 = omega (arith, symbol_bounds) in
      ground (arith, alone, above, find_among-none (code / 2 ^ (bit_length - k)) (candidates k))

find_among_sound :
    (xs : List ℕ) (n code s : ℕ)
    → all_of_length n xs ≡ true
    → find_among xs code ≡ some s
    → (s < 257) × ((huffman_symbol s).code ≡ code) × ((huffman_symbol s).bit_length ≡ n)
unfolding find_among
find_among_sound [] n code s h e = cc
find_among_sound (x ∷ xs) n code s h e = elim (Bool-cases ((huffman_symbol x).code == code)) [
  | inl hit ↦ let same : x ≡ s = ground arith in rw (← same) (ground arith)
  | inr miss ↦ find_among_sound xs n code s (ground arith) (ground arith)
]

-- What the search finds has the code and the length that were searched for.
pub find_huffman_symbol_sound :
    (code n s : ℕ)
    → n ≤ 30
    → find_huffman_symbol code n ≡ some s
    → (s < 257) × ((huffman_symbol s).code ≡ code) × ((huffman_symbol s).bit_length ≡ n)
unfolding find_huffman_symbol
find_huffman_symbol_sound code n s h e =
    let listed = every_below_at 31 _ n candidates_are_of_length (omega arith) in
    find_among_sound (candidates n) n code s listed (ground arith)
