-- ===== src/Http2/Hpack/Huffman/Bits.antt =====
-- Numbers as sequences of bits, the highest first, for the Huffman code of
-- src/KernelHttpLib/http2/Hpack.cpp.
use win_kernel_http.Common.{
  ℕ, zero, suc, List, [], ◌∷◌, ◌++◌, ◌+◌, ◌-◌, ◌*◌, ◌/◌, ◌%◌, ◌^◌, ◌<◌, ◌≡◌, refl, sym, ap, ◌∙◌,
  All, length, take, drop, arith, length-append,
}
use win_kernel_http.Common.Buffer.{Bytes, IsByte, shr}
use mathlib.Core.List.{append_assoc, append-nil}
use native.Mathlib.Nat.{
  div-div-eq-div-mul, div-eq_of_lt, div-one, one-le-pow, pow-succ', mul_assoc, add-mul,
}

-- The `n` lower bits of `w`.
unfoldable pub bits : ℕ → ℕ → List ℕ
bits zero w = []
bits (suc n) w = shr w n % 2 ∷ bits n w

-- A byte sequence bit by bit.
unfoldable pub unpack : Bytes → List ℕ
unpack [] = []
unpack (b ∷ src) = bits 8 b ++ unpack src

unfoldable pub ones : ℕ → List ℕ
ones zero = []
ones (suc n) = 1 ∷ ones n

abbrev pub IsBit : ℕ → Type 0
IsBit b = b < 2

pub bits-zero : (w : ℕ) → bits 0 w ≡ []
unfolding bits
bits-zero w = refl

pub ones-zero : ones 0 ≡ []
unfolding ones
ones-zero = refl

pub length-bits : (n w : ℕ) → length (bits n w) ≡ n
unfolding bits
length-bits zero w = refl
length-bits (suc n) w = omega (arith, length-bits n w)

pub length-unpack : (src : Bytes) → length (unpack src) ≡ 8 * length src
unfolding unpack
length-unpack [] = refl
length-unpack (b ∷ src) =
    omega (arith, length-append (bits 8 b) (unpack src), length-bits 8 b, length-unpack src)

pub length-ones : (n : ℕ) → length (ones n) ≡ n
unfolding ones
length-ones zero = refl
length-ones (suc n) = omega (arith, length-ones n)

pub unpack-append : (xs ys : Bytes) → unpack (xs ++ ys) ≡ unpack xs ++ unpack ys
unfolding unpack
unpack-append [] ys = refl
unpack-append (x ∷ xs) ys =
    rw (unpack-append xs ys) (sym (append_assoc (bits 8 x) (unpack xs) (unpack ys)))

pub bits-All : (n w : ℕ) → All IsBit (bits n w)
unfolding bits
bits-All zero w = tt
bits-All (suc n) w = (omega arith, bits-All n w)

-- The bits of `c` above the lower `n`, one step further down.
pub halve : (c n : ℕ) → c / 2 ^ suc n * 2 + c / 2 ^ n % 2 ≡ c / 2 ^ n
halve c n =
    let cut = div-div-eq-div-mul c (2 ^ n) 2 in
    let e : 2 ^ suc n ≡ 2 ^ n * 2 = omega (arith, pow-succ' 2 n) in rw (e, ← cut) (omega arith)

pub whole : (c : ℕ) → c / 2 ^ 0 ≡ c
whole c = div-one c

pub above : (c n : ℕ) → c < 2 ^ n → c / 2 ^ n ≡ 0
above c n h = div-eq_of_lt h

double : (c b n : ℕ) → b < 2 → (c * 2 + b) / 2 ^ suc n ≡ c / 2 ^ n
double c b n h =
    let e = pow-succ' 2 n in
    let half : (c * 2 + b) / 2 ≡ c = omega arith in
    let cut = div-div-eq-div-mul (c * 2 + b) 2 (2 ^ n) in rw (e, ← cut, half) refl

pub bits-push : (n c b : ℕ) → b < 2 → bits (suc n) (c * 2 + b) ≡ bits n c ++ (b ∷ [])
unfolding bits
bits-push zero c b h =
    let e : (c * 2 + b) / 2 ^ 0 % 2 ≡ b = omega (arith, whole (c * 2 + b)) in rw e refl
bits-push (suc n) c b h = rw (double c b n h, ← bits-push n c b h) refl

pub bits-pad : (j n c : ℕ) → bits (n + j) (c * 2 ^ j + (2 ^ j - 1)) ≡ bits n c ++ ones j
unfolding ones
bits-pad zero n c =
    let e : c * 2 ^ 0 + (2 ^ 0 - 1) ≡ c = omega arith in
    let f : n + 0 ≡ n = omega arith in rw (e, f) (sym (append-nil (bits n c)))
bits-pad (suc j) n c =
    let e = pow-succ' 2 j in
    let low = one-le-pow j 2 (omega arith) in
    let f : c * 2 ^ suc j + (2 ^ suc j - 1) ≡ (c * 2 + 1) * 2 ^ j + (2 ^ j - 1) =
      rw e (omega (arith, mul_assoc c 2 (2 ^ j), add-mul (c * 2) 1 (2 ^ j))) in
    let g : n + suc j ≡ suc n + j = omega arith in
    rw (f, g, bits-pad j (suc n) (c * 2 + 1), bits-push n c 1 (omega arith))
      (append_assoc (bits n c) (1 ∷ []) (ones j))

-- The number that a bit sequence behind `acc` stands for.
value : ℕ → List ℕ → ℕ
value acc [] = acc
value acc (b ∷ bs) = value (acc * 2 + b) bs

value-bits : (n c : ℕ) → value (c / 2 ^ n) (bits n c) ≡ c
unfolding value bits
value-bits zero c = whole c
value-bits (suc n) c = ap (λ (acc : ℕ). value acc (bits n c)) (halve c n) ∙ value-bits n c

value-below : (n c : ℕ) → c < 2 ^ n → value 0 (bits n c) ≡ c
value-below n c h = ap (λ (acc : ℕ). value acc (bits n c)) (sym (above c n h)) ∙ value-bits n c

bits-injective : (n a b : ℕ) → a < 2 ^ n → b < 2 ^ n → bits n a ≡ bits n b → a ≡ b
bits-injective n a b ha hb e = sym (value-below n a ha) ∙ ap (value 0) e ∙ value-below n b hb

-- Bytes are told apart by their bits.
pub unpack-injective :
    (xs ys : Bytes) → All IsByte xs → All IsByte ys → unpack xs ≡ unpack ys → xs ≡ ys
unfolding unpack bits
unpack-injective [] [] hx hy e = refl
unpack-injective [] (y ∷ ys) hx hy e = cc
unpack-injective (x ∷ xs) [] hx hy e = cc
unpack-injective (x ∷ xs) (y ∷ ys) hx hy e =
    let first = bits-injective 8 x y (hx.0) (hy.0) (ap (take 8) e) in
    let rest = unpack-injective xs ys (hx.1) (hy.1) (ap (drop 8) e) in rw (first, rest) refl
