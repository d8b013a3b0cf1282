-- ===== src/Http/Text/Trim.antt =====
-- TrimOptionalWhitespace of src/KernelHttpLib/http/HttpTypes.cpp on a text with one character more.
use win_kernel_http.Common.{
  ℕ, zero, suc, [], ◌∷◌, ◌++◌, ◌≤◌, ◌≡◌, refl, ap, ◌∙◌, ◌⊎◌, inl, inr, true, length, take, arith,
  length-append, get_or-append,
}
use win_kernel_http.Common.Buffer.{Bytes, byte_at}
use win_kernel_http.Http.Text.{is_whitespace, trim_front, trimmed_length, trim}

-- Whitespace in front is trimmed.
pub trim-whitespace : (c : ℕ) (text : Bytes) → is_whitespace c ≡ true → trim (c ∷ text) ≡ trim text
unfolding trim trim_front
trim-whitespace c text h = ground arith

trimmed_length-le : (text : Bytes) (n : ℕ) → trimmed_length text n ≤ n
unfolding trimmed_length
trimmed_length-le text zero = omega arith
trimmed_length-le text (suc n) = ground (arith, trimmed_length-le text n)

trimmed_length-append :
    (text more : Bytes) (n : ℕ)
    → n ≤ length text
    → trimmed_length (text ++ more) n ≡ trimmed_length text n
unfolding trimmed_length
trimmed_length-append text more zero h = refl
trimmed_length-append text more (suc n) h =
    ground (arith, get_or-append text more n 0 h, trimmed_length-append text more n (omega arith))

take-front : (text more : Bytes) (n : ℕ) → n ≤ length text → take n (text ++ more) ≡ take n text
take-front text more zero h = refl
take-front [] more (suc n) h = absurd (omega arith)
take-front (c ∷ text) more (suc n) h = ap (◌∷◌ c) (take-front text more n (omega arith))

last_byte : (text : Bytes) (c : ℕ) → byte_at (text ++ (c ∷ [])) (length text) ≡ c
last_byte [] c = refl
last_byte (b ∷ text) c = last_byte text c

-- The part that is left of a text, and of one with whitespace behind it.
trim_end : Bytes → Bytes
trim_end text = take (trimmed_length text (length text)) text

end_of_append :
    (text : Bytes) (c : ℕ)
    → is_whitespace c ≡ true
    → trimmed_length (text ++ (c ∷ [])) (length (text ++ (c ∷ [])))
      ≡ trimmed_length text (length text)
unfolding trimmed_length
end_of_append text c h =
    let size : length (text ++ (c ∷ [])) ≡ suc (length text) =
      omega (arith, length-append text (c ∷ [])) in
    rw size (
      ground
        (arith, last_byte text c, trimmed_length-append text (c ∷ []) (length text) (omega arith)))

trim_end-append :
    (text : Bytes) (c : ℕ) → is_whitespace c ≡ true → trim_end (text ++ (c ∷ [])) ≡ trim_end text
unfolding trim_end
trim_end-append text c h =
    ap (λ n. take n (text ++ (c ∷ []))) (end_of_append text c h)
    ∙ take-front text (c ∷ []) (trimmed_length text (length text))
        (trimmed_length-le text (length text))

trim_front-append :
    (text : Bytes) (c : ℕ)
    → is_whitespace c ≡ true
    → (trim_front (text ++ (c ∷ [])) ≡ trim_front text ++ (c ∷ []))
      ⊎ ((trim_front (text ++ (c ∷ [])) ≡ []) × (trim_front text ≡ []))
unfolding trim_front
trim_front-append [] c h = inr (ground arith)
trim_front-append (b ∷ text) c h = ground (arith, trim_front-append text c h)

-- Whitespace behind is trimmed.
pub trim-append_whitespace :
    (text : Bytes) (c : ℕ) → is_whitespace c ≡ true → trim (text ++ (c ∷ [])) ≡ trim text
unfolding trim trim_end
trim-append_whitespace text c h = elim (trim_front-append text c h) [
  | inl e ↦ ap trim_end e ∙ trim_end-append (trim_front text) c h
  | inr e ↦ ground (arith, e)
]
