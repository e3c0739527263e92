-- ===== src/Prelude/Changes.antt =====
-- Changes of all rows of a table, and the row that a query by a key finds.
use mathlib.Core.Path.{◌≡◌, refl, ap}
use mathlib.Core.Bool.{Bool, true, false}
use mathlib.Core.List.{List, [], ◌∷◌, map}
use Prim.Native.Nat.{ℕ}
use mathlib.Core.Logic.{◌⊎◌, inl, inr}
use native.Mathlib.Omega.{arith}
use yastubo_python.Prelude.Tests.{◌==◌, if◌then◌else◌, Bool-cases}
use yastubo_python.Prelude.Lists.{any, select, update_where, All}
use yastubo_python.Prelude.Rows.{AreDistinct, All-found, All-unit, head_or}

-- `UPDATE` as a function of each row
pub update_where-map :
    {A : Type 0} (q : A → Bool) (f : A → A) (xs : List A)
    → update_where q f xs ≡ map (λ x. if q x then f x else x) xs
update_where-map q f [] = refl
update_where-map q f (x ∷ xs) = ap (λ l. (if q x then f x else x) ∷ l) (update_where-map q f xs)

pub map-map : {A : Type 0} (f g : A → A) (xs : List A) → map g (map f xs) ≡ map (λ x. g (f x)) xs
map-map f g [] = refl
map-map f g (x ∷ xs) = ap (λ l. g (f x) ∷ l) (map-map f g xs)

-- A change of rows keeps a relation away from all pairs of different keys if it does so for any two
-- rows with different keys.
module _ {A : Type 0} (P : A → Type 0) (same R : A → A → Bool) (g : A → A)
    (keep : (x y : A) → P x → P y → same x y ≡ false → R x y ≡ false → R (g x) (g y) ≡ false) where
  any-map :
      (x : A) (ys : List A)
      → P x
      → All P ys
      → any (same x) ys ≡ false
      → any (R x) ys ≡ false
      → any (R (g x)) (map g ys) ≡ false
  any-map x [] p h s r = refl
  any-map x (y ∷ ys) p h s r = elim (Bool-cases (same x y)) [
    | inl t ↦ absurd (cc (rw t at s))
    | inr t ↦ elim (Bool-cases (R x y)) [
      | inl u ↦ absurd (cc (rw u at r))
      | inr u ↦ rw (keep x y p h.0 t u) (any-map x ys p h.1 (rw t at s) (rw u at r))
    ]
  ]

  pub AreDistinct-map :
      (xs : List A) → All P xs → AreDistinct same xs → AreDistinct R xs → AreDistinct R (map g xs)
  AreDistinct-map [] h s r = tt
  AreDistinct-map (x ∷ xs) h s r = (any-map x xs h.0 h.1 s.0 r.0, AreDistinct-map xs h.1 s.1 r.1)

-- With distinct keys, the row that a query by the key and more finds is the only one with its key.
module _ {A : Type 0} (key : A → ℕ) (k : ℕ) (q : A → Bool) where
  abbrev pub IsOther : A → A → Type 0
  IsOther a x = ((key x == k) ≡ false) ⊎ (x ≡ a)

  others :
      (a x : A) (xs : List A)
      → (key x == k) ≡ true
      → any (λ y. key x == key y) xs ≡ false
      → All (IsOther a) xs
  others a x [] e h = tt
  others a x (y ∷ xs) e h = elim (Bool-cases (key x == key y)) [
    | inl t ↦ absurd (cc (rw t at h))
    | inr t ↦ (inl (ground arith), others a x xs e (rw t at h))
  ]

  not_twice :
      (x a : A) (xs rest : List A)
      → (key x == k) ≡ true
      → any (λ y. key x == key y) xs ≡ false
      → (key a == k) ≡ true
      → select q xs ≡ a ∷ rest
      → ⊥
  not_twice x a [] rest e h f s = absurd (cc)
  not_twice x a (y ∷ xs) rest e h f s = elim (Bool-cases (key x == key y)) [
    | inl t ↦ cc (rw t at h)
    | inr t ↦ elim (Bool-cases (q y)) [
      | inl u ↦
          let s' : y ∷ select q xs ≡ a ∷ rest = rw u at s in
          let same : y ≡ a = ap (λ l. head_or y l) s' in
          let t' : (key x == key a) ≡ false = rw same at t in absurd (ground arith)
      | inr u ↦ not_twice x a xs rest e (rw t at h) f (rw u at s)
    ]
  ]

  pub only_row :
      (a : A) (xs rest : List A)
      → AreDistinct (λ x y. key x == key y) xs
      → ((x : A) → q x ≡ true → (key x == k) ≡ true)
      → select q xs ≡ a ∷ rest
      → All (IsOther a) xs
  only_row a [] rest d i e = tt
  only_row a (x ∷ xs) rest d i e = elim (Bool-cases (q x)) [
    | inl t ↦
        let e' : x ∷ select q xs ≡ a ∷ rest = rw t at e in
        let same : x ≡ a = ap (λ l. head_or x l) e' in (inr same, others a x xs (i x t) d.0)
    | inr t ↦
        let all = only_row a xs rest d.1 i (rw t at e) in
        elim (Bool-cases (key x == k)) [
          | inr u ↦ (inl u, all)
          | inl u ↦
              let found = All-found (λ _. Unit) q a xs rest (All-unit xs) (rw t at e) in
              absurd (not_twice x a xs rest u d.0 (i a found.1) (rw t at e))
        ]
  ]

-- a selection of changed rows is the changed selection, if the two tests agree
module _ {A : Type 0} (P : A → Type 0) (a q : A → Bool) (g : A → A) where
  pub select-map :
      (xs : List A)
      → All P xs
      → ((x : A) → P x → a (g x) ≡ q x)
      → select a (map g xs) ≡ map g (select q xs)
  select-map [] h e = refl
  select-map (x ∷ xs) h e = elim (Bool-cases (q x)) [
    | inl t ↦ rw (e x h.0, t) (ap (λ l. g x ∷ l) (select-map xs h.1 e))
    | inr t ↦ rw (e x h.0, t) (select-map xs h.1 e)
  ]

  pub select-map_same :
      (xs : List A)
      → All P xs
      → ((x : A) → P x → a (g x) ≡ q x)
      → ((x : A) → P x → q x ≡ true → g x ≡ x)
      → select a (map g xs) ≡ select q xs
  select-map_same [] h e f = refl
  select-map_same (x ∷ xs) h e f = elim (Bool-cases (q x)) [
    | inl t ↦ rw (e x h.0, t, f x h.0 t) (ap (λ l. x ∷ l) (select-map_same xs h.1 e f))
    | inr t ↦ rw (e x h.0, t) (select-map_same xs h.1 e f)
  ]
