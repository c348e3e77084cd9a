-- ===== src/Registry/Merge.antt =====
-- `deep_merge` of src/voxbench/registry/merge.py, and what a merged configuration holds.
use voxbench.Base.{
  ◌≡◌, refl, sym, subst, ◌∙◌, true, false, Option, none, some, String, text_eq, text_eq_iff,
  if◌then◌else◌, Bool-cases, inl, inr,
}
use voxbench.Registry.Json.{
  Json, null, boolean, integer, float, text, array, object, Fields, no_fields, field, lookup,
  assign,
}

-- The value that a key has after the merge: two objects are merged, else the overlay's stands.
unfoldable mutual
  unfolding lookup assign

  pub merge_value : Option Json → Json → Json
  merge_value (some (object base)) (object overlay) = object (deep_merge base overlay)
  merge_value old value = value

  pub deep_merge : Fields → Fields → Fields
  deep_merge base no_fields = base
  deep_merge base (field key value rest) =
      deep_merge (assign key (merge_value (lookup key base) value) base) rest

-- No key occurs twice, as in every `dict`.
abbrev pub IsDict : Fields → Type 0
IsDict no_fields = Unit
IsDict (field key value rest) = (lookup key rest ≡ none) × IsDict rest

-- What a key with these values in the base and in the overlay has after a merge: objects are merged
-- into one object, any other value of the overlay's replaces the base's, and a key that the overlay
-- lacks keeps the base's.
abbrev pub merged : Option Json → Option Json → Option Json
merged old none = old
merged (some (object base)) (some (object overlay)) = some (object (deep_merge base overlay))
merged _ (some value) = some value

merge_value-merged :
    (old : Option Json) (value : Json) → some (merge_value old value) ≡ merged old (some value)
unfolding merge_value
merge_value-merged none value = refl
merge_value-merged (some null) value = refl
merge_value-merged (some (boolean b)) value = refl
merge_value-merged (some (integer n)) value = refl
merge_value-merged (some (float f)) value = refl
merge_value-merged (some (text s)) value = refl
merge_value-merged (some (array items)) value = refl
merge_value-merged (some (object base)) null = refl
merge_value-merged (some (object base)) (boolean b) = refl
merge_value-merged (some (object base)) (integer n) = refl
merge_value-merged (some (object base)) (float f) = refl
merge_value-merged (some (object base)) (text s) = refl
merge_value-merged (some (object base)) (array items) = refl
merge_value-merged (some (object base)) (object overlay) = refl

both_texts : (a b c : String) → text_eq a b ≡ false → text_eq a c ≡ true → text_eq b c ≡ false
both_texts a b c e f = elim (Bool-cases (text_eq b c)) [
  | inr g ↦ g
  | inl g ↦
      absurd (cc (e, (text_eq_iff a b).1 ((text_eq_iff a c).0 f ∙ sym ((text_eq_iff b c).0 g))))
]

lookup-assign :
    (key k : String) (value : Json) (fields : Fields)
    → lookup key (assign k value fields) ≡ (if text_eq k key then some value else lookup key fields)
unfolding lookup assign
lookup-assign key k value no_fields = refl
lookup-assign key k value (field j old rest) = elim (Bool-cases (text_eq j k)) [
  | inl e ↦
      let same : j ≡ k = (text_eq_iff j k).0 e in
      rw (e, assign)
        (rw same (elim (Bool-cases (text_eq k key)) [ inl f ↦ rw f refl | inr f ↦ rw f refl ]))
  | inr e ↦
      rw (e, assign)
        (rw (lookup-assign key k value rest) (elim (Bool-cases (text_eq j key)) [
          | inl f ↦ rw (f, both_texts j k key e f) refl
          | inr f ↦ rw f refl
        ]))
]

-- If no key of the overlay's occurs twice, a key of the merge has: if base and overlay both have
-- an object there, the object that is the merge of the two; else the overlay's value if it has
-- one; and the base's value if the overlay lacks the key.
pub lookup-deep_merge :
    (key : String) (base overlay : Fields)
    → IsDict overlay
    → lookup key (deep_merge base overlay) ≡ merged (lookup key base) (lookup key overlay)
unfolding lookup deep_merge
lookup-deep_merge key base no_fields d = refl
lookup-deep_merge key base (field k v rest) d = elim (Bool-cases (text_eq k key)) [
  | inl e ↦
      let same : k ≡ key = (text_eq_iff k key).0 e in
      let gone : lookup key rest ≡ none = subst (λ i. lookup i rest ≡ none) same d.0 in
      lookup-deep_merge key (assign k (merge_value (lookup k base) v) base) rest d.1
      ∙ rw gone (
          lookup-assign key k (merge_value (lookup k base) v) base
          ∙ rw (e, same) (merge_value-merged (lookup key base) v))
  | inr e ↦
      let kept : lookup key (assign k (merge_value (lookup k base) v) base) ≡ lookup key base =
        lookup-assign key k (merge_value (lookup k base) v) base ∙ rw e refl in
      lookup-deep_merge key (assign k (merge_value (lookup k base) v) base) rest d.1
      ∙ rw (kept, e) refl
]
