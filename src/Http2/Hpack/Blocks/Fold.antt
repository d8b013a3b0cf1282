-- ===== src/Http2/Hpack/Blocks/Fold.antt =====
-- Fields up to the case of their names, which NameEquals of src/KernelHttpLib/http2/Hpack.cpp does
-- not tell apart.
use win_kernel_http.Common.{
  ℕ, zero, suc, List, [], ◌∷◌, ◌-◌, ◌≡◌, refl, sym, ap, ◌∙◌, true, some, length, arith,
}
use win_kernel_http.Common.Buffer.{Bytes}
use win_kernel_http.Http2.Hpack.Table.{Field}
use win_kernel_http.Http2.Hpack.Table.Spec.{field_size, keep, inserted, nth_field}
use win_kernel_http.Http2.Hpack.Names.{
  fold_char, same_names, name_equals, same_values, value_equals,
}

unfoldable pub fold_name : Bytes → Bytes
fold_name [] = []
fold_name (c ∷ name) = fold_char c ∷ fold_name name

abbrev pub fold_field : Field → Field
fold_field f = record { name = fold_name f.name; value = f.value }

abbrev pub fold_fields : List Field → List Field
fold_fields [] = []
fold_fields (f ∷ fs) = fold_field f ∷ fold_fields fs

pub length-fold_name : (name : Bytes) → length (fold_name name) ≡ length name
unfolding fold_name
length-fold_name [] = refl
length-fold_name (c ∷ name) = omega (arith, length-fold_name name)

same_names-fold :
    (a b : Bytes) → length a ≡ length b → same_names a b ≡ true → fold_name a ≡ fold_name b
unfolding same_names fold_name
same_names-fold [] [] h e = refl
same_names-fold [] (y ∷ b) h e = absurd (omega arith)
same_names-fold (x ∷ a) [] h e = absurd (omega arith)
same_names-fold (x ∷ a) (y ∷ b) h e =
    let first : fold_char x ≡ fold_char y = ground arith in
    let rest = same_names-fold a b (omega arith) (ground arith) in rw (first, rest) refl

pub name_equals-fold : (a b : Bytes) → name_equals a b ≡ true → fold_name a ≡ fold_name b
unfolding name_equals
name_equals-fold a b e = same_names-fold a b (ground arith) (ground arith)

same_values-eq : (a b : Bytes) → length a ≡ length b → same_values a b ≡ true → a ≡ b
unfolding same_values
same_values-eq [] [] h e = refl
same_values-eq [] (y ∷ b) h e = absurd (omega arith)
same_values-eq (x ∷ a) [] h e = absurd (omega arith)
same_values-eq (x ∷ a) (y ∷ b) h e =
    let first : x ≡ y = ground arith in
    let rest = same_values-eq a b (omega arith) (ground arith) in rw (first, rest) refl

pub value_equals-eq : (a b : Bytes) → value_equals a b ≡ true → a ≡ b
unfolding value_equals
value_equals-eq a b e = same_values-eq a b (ground arith) (ground arith)

field_size-fold : (f : Field) → field_size (fold_field f) ≡ field_size f
field_size-fold f = omega (arith, length-fold_name f.name)

keep-fold :
    (limit : ℕ) (fs : List Field) → fold_fields (keep limit fs) ≡ keep limit (fold_fields fs)
keep-fold limit [] = refl
keep-fold limit (f ∷ fs) =
    rw (field_size-fold f) (ground (arith, keep-fold (limit - field_size f) fs))

-- What the table does with fields depends on their sizes alone.
pub keep-same :
    (limit : ℕ) (fs gs : List Field)
    → fold_fields fs ≡ fold_fields gs
    → fold_fields (keep limit fs) ≡ fold_fields (keep limit gs)
keep-same limit fs gs e = rw (keep-fold limit fs, keep-fold limit gs, e) refl

inserted-fold :
    (limit : ℕ) (f : Field) (fs : List Field)
    → fold_fields (inserted limit f fs) ≡ inserted limit (fold_field f) (fold_fields fs)
inserted-fold limit f fs =
    rw (field_size-fold f) (ground (arith, keep-fold (limit - field_size f) fs))

pub inserted-same :
    (limit : ℕ) (f g : Field) (fs gs : List Field)
    → fold_field f ≡ fold_field g
    → fold_fields fs ≡ fold_fields gs
    → fold_fields (inserted limit f fs) ≡ fold_fields (inserted limit g gs)
inserted-same limit f g fs gs e e' =
    inserted-fold limit f fs
    ∙ ap (λ (h : Field). inserted limit h (fold_fields fs)) e
    ∙ ap (inserted limit (fold_field g)) e'
    ∙ sym (inserted-fold limit g gs)

-- An index names the same field in both.
pub nth_field-same :
    (i : ℕ) (fs gs : List Field) (f : Field)
    → fold_fields fs ≡ fold_fields gs
    → nth_field i fs ≡ some f
    → (g : Field) × (nth_field i gs ≡ some g) × (fold_field g ≡ fold_field f)
nth_field-same i [] gs f e n = cc
nth_field-same i (h ∷ fs) [] f e n = cc
nth_field-same zero (h ∷ fs) (g ∷ gs) f e n = (g, refl, cc)
nth_field-same (suc i) (h ∷ fs) (g ∷ gs) f e n =
    let rest : fold_fields fs ≡ fold_fields gs = cc e in nth_field-same i fs gs f rest n
