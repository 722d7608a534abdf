-- ===== src/Json/Order.antt =====
-- `stableStringify` of kernel/state-ledger/index.ts and the order of keys.
use avorelo.Common.{
  String, ◌≡◌, refl, ◌∙◌, ap, ◌≢◌, List, [], ◌∷◌, map, arith, ◌&◌, join, text_lt, text_lt_trans,
  text_lt_asym, text_lt_total, Bool-cases, inl, inr,
}
use mathlib.Core.Path.{ap₂}
use avorelo.Json.{
  Json, arr, obj, Items, nil, cons, Fields, end, field, insert_field, stable_stringify,
  stringify_items, sorted_fields, render,
}

insert_field_comm :
    (k l s t : String) (fs : List (String × String))
    → k ≢ l
    → insert_field k s (insert_field l t fs) ≡ insert_field l t (insert_field k s fs)
unfolding insert_field
insert_field_comm k l s t [] d = elim (Bool-cases (text_lt k l)) [
  | inl h ↦ ground (arith, text_lt_asym k l)
  | inr h ↦ elim (Bool-cases (text_lt l k)) [
    | inl g ↦ ground arith
    | inr g ↦ absurd (d (text_lt_total k l h g))
  ]
]
insert_field_comm k l s t ((m, u) ∷ fs) d = elim (Bool-cases (text_lt k l)) [
  | inl h ↦
      ground (arith, insert_field_comm k l s t fs d, text_lt_asym k l h, text_lt_trans k l m h)
  | inr h ↦ elim (Bool-cases (text_lt l k)) [
    | inl g ↦ ground (arith, insert_field_comm k l s t fs d, text_lt_trans l k m g)
    | inr g ↦ absurd (d (text_lt_total k l h g))
  ]
]

-- Two values that differ in the order of keys alone: swaps of neighbouring fields, at any depth.
mutual
  pub data Reordered : Json → Json → Type 0 where
    same : (v : Json) → Reordered v v
    items : {xs ys : Items} → ReorderedItems xs ys → Reordered (arr xs) (arr ys)
    fields : {fs gs : Fields} → ReorderedFields fs gs → Reordered (obj fs) (obj gs)

  pub data ReorderedItems : Items → Items → Type 0 where
    none_left : ReorderedItems nil nil
    each :
        {v w : Json} {xs ys : Items}
        → Reordered v w
        → ReorderedItems xs ys
        → ReorderedItems (cons v xs) (cons w ys)

  pub data ReorderedFields : Fields → Fields → Type 0 where
    no_more : ReorderedFields end end
    keep :
        {k : String} {v w : Json} {fs gs : Fields}
        → Reordered v w
        → ReorderedFields fs gs
        → ReorderedFields (field k v fs) (field k w gs)
    swap :
        {k l : String} (v w : Json) (fs : Fields)
        → k ≢ l
        → ReorderedFields (field k v (field l w fs)) (field l w (field k v fs))
    after :
        {fs gs hs : Fields} → ReorderedFields fs gs → ReorderedFields gs hs → ReorderedFields fs hs

mutual
  unfolding stable_stringify stringify_items sorted_fields

  stringify-Reordered : {v w : Json} → Reordered v w → stable_stringify v ≡ stable_stringify w
  stringify-Reordered (same v) = refl
  stringify-Reordered (items r) =
      ap (λ (ts : List String). "[" & join "," ts & "]") (items-reordered r)
  stringify-Reordered (fields r) =
      ap (λ (ts : List (String × String)). "{" & join "," (map render ts) & "}")
        (fields-reordered r)

  items-reordered : {xs ys : Items} → ReorderedItems xs ys → stringify_items xs ≡ stringify_items ys
  items-reordered none_left = refl
  items-reordered (each r rs) = ap₂ ◌∷◌ (stringify-Reordered r) (items-reordered rs)

  fields-reordered : {fs gs : Fields} → ReorderedFields fs gs → sorted_fields fs ≡ sorted_fields gs
  fields-reordered no_more = refl
  fields-reordered (keep {k} r rs) =
      ap₂ (insert_field k) (stringify-Reordered r) (fields-reordered rs)
  fields-reordered (swap {k} {l} v w fs d) =
      insert_field_comm k l (stable_stringify v) (stable_stringify w) (sorted_fields fs) d
  fields-reordered (after r s) = fields-reordered r ∙ fields-reordered s

-- Values that differ in the order of their objects' keys alone, at any depth, have the same text.
pub stable_stringify-Reordered :
    {v w : Json} → Reordered v w → stable_stringify v ≡ stable_stringify w
stable_stringify-Reordered r = stringify-Reordered r
