-- ===== src/Http2/Hpack/Huffman/Runs.antt =====
-- The loops of HpackHuffmanEncode of src/KernelHttpLib/http2/Hpack.cpp as steps on single bits.
use win_kernel_http.Common.{ℕ, zero, suc, List, [], ◌∷◌, ◌++◌, ◌%◌, ◌≡◌, refl, inl, inr}
use win_kernel_http.Common.Buffer.{Bytes, shr}
use win_kernel_http.Common.Status.{Result, ok, err, ◌>>=◌, Result-cases}
use win_kernel_http.Http2.Hpack.Huffman.Bits.{bits}
use win_kernel_http.Http2.Hpack.Huffman.{huffman_symbol, Encoder, put_bit, put_code, put_symbols}

-- The codes of the symbols of a string, one behind the other.
unfoldable pub message : Bytes → List ℕ
message [] = []
message (b ∷ src) = bits (huffman_symbol b).bit_length (huffman_symbol b).code ++ message src

-- A step on each bit of a sequence.
unfoldable pub run_bits {ℓ} : {S : Type ℓ} → (S → ℕ → Result S) → S → List ℕ → Result S
run_bits f s [] = ok s
run_bits f s (b ∷ bs) = f s b >>= λ next. run_bits f next bs

pub run_bits-append {ℓ} :
    {S : Type ℓ} (f : S → ℕ → Result S) (s : S) (xs ys : List ℕ)
    → run_bits f s (xs ++ ys) ≡ (run_bits f s xs >>= λ next. run_bits f next ys)
unfolding run_bits
run_bits-append f s [] ys = refl
run_bits-append f s (x ∷ xs) ys = elim (Result-cases (f s x)) [
  | inl (next, e) ↦ rw (e, run_bits-append f next xs ys) refl
  | inr (status, e) ↦ rw e refl
]

put_code-run_bits :
    (capacity left code : ℕ) (s : Encoder)
    → put_code capacity left code s ≡ run_bits (put_bit capacity) s (bits left code)
unfolding run_bits bits put_code
put_code-run_bits capacity zero code s = refl
put_code-run_bits capacity (suc left) code s =
    elim (Result-cases (put_bit capacity s (shr code left % 2))) [
      | inl (next, e) ↦ rw (e, put_code-run_bits capacity left code next) refl
      | inr (status, e) ↦ rw e refl
    ]

pub bind-ext {ℓ ℓ'} :
    {A : Type ℓ} {B : Type ℓ'} (m : Result A) {f g : A → Result B}
    → ((a : A) → f a ≡ g a)
    → (m >>= f) ≡ (m >>= g)
bind-ext (ok a) h = h a
bind-ext (err e) h = refl

pub put_symbols-run_bits :
    (capacity : ℕ) (src : Bytes) (s : Encoder)
    → put_symbols capacity src s ≡ run_bits (put_bit capacity) s (message src)
unfolding put_symbols message run_bits
put_symbols-run_bits capacity [] s = refl
put_symbols-run_bits capacity (b ∷ src) s =
    let n = (huffman_symbol b).bit_length in
    let code = (huffman_symbol b).code in
    rw
      (
        run_bits-append (put_bit capacity) s (bits n code) (message src),
        ← put_code-run_bits capacity n code s,
      )
      (bind-ext (put_code capacity n code s) (put_symbols-run_bits capacity src))
