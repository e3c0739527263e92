-- ===== src/Prelude/Rows.antt =====
-- Lists without two entries that a test takes for the same, and what inserts, updates and deletes do
-- to them.
use mathlib.Core.Path.{◌≡◌, refl, ap, ◌∙◌}
use mathlib.Core.Bool.{Bool, true, false}
use mathlib.Core.List.{List, [], ◌∷◌, ◌++◌}
use mathlib.Core.Logic.{inl, inr}
use native.Mathlib.Omega.{arith}
use yastubo_python.Prelude.Tests.{Bool-cases}
use yastubo_python.Prelude.Lists.{any, select, update_where, All, Any}

module _ {A : Type 0} (same : A → A → Bool) where
  -- No entry is the same as a later one.
  abbrev pub AreDistinct : List A → Type 0
  AreDistinct [] = Unit
  AreDistinct (x ∷ xs) = (any (same x) xs ≡ false) × AreDistinct xs

module _ {A : Type 0} where
  pub any-append-false :
      (p : A → Bool) (xs : List A) (x : A)
      → any p xs ≡ false
      → p x ≡ false
      → any p (xs ++ x ∷ []) ≡ false
  any-append-false p [] x h e = ground arith
  any-append-false p (y ∷ xs) x h e = elim (Bool-cases (p y)) [
    | inl t ↦ absurd (cc (rw t at h))
    | inr t ↦ rw t (any-append-false p xs x (rw t at h) e)
  ]

  pub any-select-false :
      (p q : A → Bool) (xs : List A) → any p xs ≡ false → any p (select q xs) ≡ false
  any-select-false p q [] h = refl
  any-select-false p q (x ∷ xs) h = elim (Bool-cases (p x)) [
    | inl t ↦ absurd (cc (rw t at h))
    | inr t ↦ elim (Bool-cases (q x)) [
      | inl u ↦ rw (u, t) (any-select-false p q xs (rw t at h))
      | inr u ↦ rw u (any-select-false p q xs (rw t at h))
    ]
  ]

  pub any_cong : (p q : A → Bool) (xs : List A) → ((x : A) → p x ≡ q x) → any p xs ≡ any q xs
  any_cong p q [] h = refl
  any_cong p q (x ∷ xs) h = rw (h x, any_cong p q xs h)

  pub any-update :
      (p q : A → Bool) (f : A → A) (xs : List A)
      → ((x : A) → p (f x) ≡ p x)
      → any p (update_where q f xs) ≡ any p xs
  any-update p q f [] h = refl
  any-update p q f (x ∷ xs) h = elim (Bool-cases (q x)) [
    | inl t ↦ rw t (rw (h x, any-update p q f xs h))
    | inr t ↦ rw t (rw (any-update p q f xs h))
  ]

module _ {A : Type 0} (same : A → A → Bool) (comm : (x y : A) → same x y ≡ same y x) where
  pub AreDistinct-append :
      (xs : List A) (x : A)
      → any (same x) xs ≡ false
      → AreDistinct same xs
      → AreDistinct same (xs ++ x ∷ [])
  AreDistinct-append [] x h d = (refl, tt)
  AreDistinct-append (y ∷ xs) x h d = elim (Bool-cases (same x y)) [
    | inl t ↦ absurd (cc (rw t at h))
    | inr t ↦ (
      any-append-false (same y) xs x d.0 (rw (comm y x) t),
      AreDistinct-append xs x (rw t at h) d.1,
    )
  ]

module _ {A : Type 0} (same : A → A → Bool) where
  pub AreDistinct-select :
      (q : A → Bool) (xs : List A) → AreDistinct same xs → AreDistinct same (select q xs)
  AreDistinct-select q [] d = tt
  AreDistinct-select q (x ∷ xs) d = elim (Bool-cases (q x)) [
    | inl t ↦ rw t (any-select-false (same x) q xs d.0, AreDistinct-select q xs d.1)
    | inr t ↦ rw t (AreDistinct-select q xs d.1)
  ]

  pub AreDistinct-update :
      (q : A → Bool) (f : A → A) (xs : List A)
      → ((x y : A) → same x (f y) ≡ same x y)
      → ((x y : A) → same (f x) y ≡ same x y)
      → AreDistinct same xs
      → AreDistinct same (update_where q f xs)
  AreDistinct-update q f [] r l d = tt
  AreDistinct-update q f (x ∷ xs) r l d = elim (Bool-cases (q x)) [
    | inl t ↦ rw t (
      any_cong (same (f x)) (same x) (update_where q f xs) (l x)
          ∙ (any-update (same x) q f xs (r x) ∙ d.0),
      AreDistinct-update q f xs r l d.1,
    )
    | inr t ↦ rw t (any-update (same x) q f xs (r x) ∙ d.0, AreDistinct-update q f xs r l d.1)
  ]

abbrev pub head_or {ℓ} : {A : Type ℓ} → A → List A → A
head_or a [] = a
head_or a (x ∷ xs) = x

module _ {A : Type 0} (P : A → Type 0) where
  pub All-append : (xs : List A) (x : A) → All P xs → P x → All P (xs ++ x ∷ [])
  All-append [] x h p = (p, tt)
  All-append (y ∷ xs) x h p = (h.0, All-append xs x h.1 p)

  pub All-select : (q : A → Bool) (xs : List A) → All P xs → All P (select q xs)
  All-select q [] h = tt
  All-select q (x ∷ xs) h = elim (Bool-cases (q x)) [
    | inl t ↦ rw t (h.0, All-select q xs h.1)
    | inr t ↦ rw t (All-select q xs h.1)
  ]

  pub All-update :
      (q : A → Bool) (f : A → A) (xs : List A)
      → ((x : A) → P x → P (f x))
      → All P xs
      → All P (update_where q f xs)
  All-update q f [] k h = tt
  All-update q f (x ∷ xs) k h = elim (Bool-cases (q x)) [
    | inl t ↦ rw t (k x h.0, All-update q f xs k h.1)
    | inr t ↦ rw t (h.0, All-update q f xs k h.1)
  ]

  pub All-weaken : (Q : A → Type 0) (xs : List A) → ((x : A) → P x → Q x) → All P xs → All Q xs
  All-weaken Q [] k h = tt
  All-weaken Q (x ∷ xs) k h = (k x h.0, All-weaken Q xs k h.1)

  -- what a query finds is a row with the property that the query asks for
  pub All-found :
      (q : A → Bool) (x : A) (xs rest : List A)
      → All P xs
      → select q xs ≡ x ∷ rest
      → P x × (q x ≡ true)
  All-found q x [] rest h e = absurd (cc)
  All-found q x (y ∷ xs) rest h e = elim (Bool-cases (q y)) [
    | inl t ↦
        let e' : y ∷ select q xs ≡ x ∷ rest = rw t at e in
        let same : y ≡ x = ap (λ l. head_or y l) e' in rw (← same) (h.0, t)
    | inr t ↦ All-found q x xs rest h.1 (rw t at e)
  ]

pub All-unit : {A : Type 0} (xs : List A) → All (λ _. Unit) xs
All-unit [] = tt
All-unit (x ∷ xs) = (tt, All-unit xs)

-- a test that holds of an entry, and an entry with the property that the test decides
module _ {A : Type 0} (f : A → Bool) (P : A → Type 0) (sound : (x : A) → f x ≡ true → P x)
    (complete : (x : A) → P x → f x ≡ true) where
  pub any-Any : (xs : List A) → any f xs ≡ true → Any P xs
  any-Any [] h = absurd (cc)
  any-Any (x ∷ xs) h = elim (Bool-cases (f x)) [
    | inl t ↦ inl (sound x t)
    | inr t ↦ inr (any-Any xs (rw t at h))
  ]

  pub Any-any : (xs : List A) → Any P xs → any f xs ≡ true
  Any-any [] a = absurd a
  Any-any (x ∷ xs) (inl p) = rw (complete x p) refl
  Any-any (x ∷ xs) (inr a) = ground (arith, Any-any xs a)
