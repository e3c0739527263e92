-- ===== src/Prelude/Ordered.antt =====
-- ORDER BY: a list in order, and the only order of rows that the key tells apart.
use mathlib.Core.Path.{◌≡◌, refl, sym, ap, ◌∙◌, subst}
use mathlib.Core.Bool.{Bool, true, false}
use mathlib.Core.Logic.{◌⊎◌, inl, inr}
use mathlib.Core.List.{List, [], ◌∷◌, Permᴰ}
use mathlib.Core.List.Permᴰ
use yastubo_python.Prelude.Lists.{All, Any}

module _ {A : Type 0} where
  -- each element with all that stand after it
  abbrev pub Pairs : (A → A → Type 0) → List A → Type 0
  Pairs R [] = Unit
  Pairs R (x ∷ xs) = All (R x) xs × Pairs R xs

  abbrev IsIn : List A → A → Type 0
  IsIn xs z = Any (λ x. x ≡ z) xs

  All-mapped : {P Q : A → Type 0} (f : (a : A) → P a → Q a) (xs : List A) → All P xs → All Q xs
  All-mapped f [] h = tt
  All-mapped f (x ∷ xs) h = (f x h.0, All-mapped f xs h.1)

  All-at : (P : A → Type 0) (xs : List A) (z : A) → All P xs → IsIn xs z → P z
  All-at P [] z h m = absurd m
  All-at P (x ∷ xs) z h (inl e) = subst P e h.0
  All-at P (x ∷ xs) z h (inr m) = All-at P xs z h.1 m

  Perm-All : (P : A → Type 0) {xs ys : List A} → Permᴰ xs ys → All P xs → All P ys
  Perm-All P Permᴰ.nil h = tt
  Perm-All P (Permᴰ.cons e p) h = (subst P e h.0, Perm-All P p h.1)
  Perm-All P (Permᴰ.swap e f) h = (subst P f h.1.0, (subst P e h.0, h.1.1))
  Perm-All P (Permᴰ.trans p q) h = Perm-All P q (Perm-All P p h)

  Perm-Pairs :
      (R : A → A → Type 0) {xs ys : List A}
      → ((x y : A) → R x y → R y x)
      → Permᴰ xs ys
      → Pairs R xs
      → Pairs R ys
  Perm-Pairs R turn Permᴰ.nil h = tt
  Perm-Pairs R turn (Permᴰ.cons {a = a} {l₂ = l₂} e p) h =
      (subst (λ u. All (R u) l₂) e (Perm-All (R a) p h.0), Perm-Pairs R turn p h.1)
  Perm-Pairs R turn (Permᴰ.swap {a = a} {b = b} {a' = a'} {b' = b'} {l = l} e f) h = (
    (subst (λ u. R u b') f (subst (R b) e (turn a b h.0.0)), subst (λ u. All (R u) l) f h.1.0),
    (subst (λ u. All (R u) l) e h.0.1, h.1.1),
  )
  Perm-Pairs R turn (Permᴰ.trans p q) h = Perm-Pairs R turn q (Perm-Pairs R turn p h)

  All-IsIn : (xs : List A) → All (IsIn xs) xs
  All-IsIn [] = tt
  All-IsIn (x ∷ xs) = (inl refl, All-mapped (λ z m. inr m) xs (All-IsIn xs))

  Perm-IsIn : {xs ys : List A} → Permᴰ xs ys → All (IsIn xs) ys
  Perm-IsIn {xs} p = Perm-All (IsIn xs) p (All-IsIn xs)

-- a strict order, as a test
pub record IsOrder {A : Type 0} (before : A → A → Bool) : Type 0 where
  pub never : (x : A) → before x x ≡ false
  pub through : (x y z : A) → before x y ≡ true → before y z ≡ true → before x z ≡ true

module _ {A : Type 0} (before : A → A → Bool) where
  -- the test tells them apart
  abbrev pub AreApart : A → A → Type 0
  AreApart x y = (before x y ≡ true) ⊎ (before y x ≡ true)

  -- nothing stands after what it comes before
  abbrev pub IsSorted : List A → Type 0
  IsSorted = Pairs (λ x y. before y x ≡ false)

  -- what ORDER BY promises: the rows, none before one that its key comes before
  pub record Orders (rows result : List A) : Type 0 where
    pub perm : Permᴰ rows result
    pub sorted : IsSorted result

module _ {A : Type 0} (before : A → A → Bool) (o : IsOrder before) where
  abbrev Comes : A → A → Type 0
  Comes x y = before x y ≡ true

  not_itself : (x : A) → before x x ≡ true → ⊥
  not_itself x h = let n = o.never x in absurd (cc)

  without_head :
      (x : A) (ys zs : List A) → All (Comes x) zs → All (IsIn (x ∷ ys)) zs → All (IsIn ys) zs
  without_head x ys [] h m = tt
  without_head x ys (z ∷ zs) h (inl e, m) =
      absurd (not_itself z (subst (λ a. before a z ≡ true) e h.0))
  without_head x ys (z ∷ zs) h (inr n, m) = (n, without_head x ys zs h.1 m)

  same_head :
      (x y : A) (xs ys : List A)
      → All (Comes x) xs
      → All (Comes y) ys
      → IsIn (y ∷ ys) x
      → IsIn (x ∷ xs) y
      → x ≡ y
  same_head x y xs ys h k (inl e) n = sym e
  same_head x y xs ys h k (inr m) (inl e) = e
  same_head x y xs ys h k (inr m) (inr n) =
      absurd
        (not_itself x (o.through x y x (All-at (Comes x) xs y h n) (All-at (Comes y) ys x k m)))

  -- two lists in strict order with the same elements
  Pairs-unique :
      (xs ys : List A)
      → Pairs Comes xs
      → Pairs Comes ys
      → All (IsIn ys) xs
      → All (IsIn xs) ys
      → xs ≡ ys
  Pairs-unique [] [] h k m n = refl
  Pairs-unique [] (y ∷ ys) h k m n = absurd n.0
  Pairs-unique (x ∷ xs) [] h k m n = absurd m.0
  Pairs-unique (x ∷ xs) (y ∷ ys) h k m n =
      let e : x ≡ y = same_head x y xs ys h.0 k.0 m.0 n.0 in
      let m' = subst (λ a. All (IsIn (a ∷ ys)) xs) (sym e) m.1 in
      let k' = subst (λ a. All (Comes a) ys) (sym e) k.0 in
      let rest =
        Pairs-unique xs ys h.1 k.1 (without_head x ys xs h.0 m') (without_head x xs ys k' n.1) in
      ap (λ l. x ∷ l) rest ∙ ap (λ a. a ∷ ys) e

  Comes-all :
      (x : A) (xs : List A)
      → All (AreApart before x) xs
      → All (λ y. before y x ≡ false) xs
      → All (Comes x) xs
  Comes-all x [] d h = tt
  Comes-all x (y ∷ ys) (inl e, d) h = (e, Comes-all x ys d h.1)
  Comes-all x (y ∷ ys) (inr e, d) h = absurd (let n = h.0 in cc)

  sorted_strict : (xs : List A) → Pairs (AreApart before) xs → IsSorted before xs → Pairs Comes xs
  sorted_strict [] d h = tt
  sorted_strict (x ∷ xs) d h = (Comes-all x xs d.0 h.0, sorted_strict xs d.1 h.1)

  pub Orders-unique :
      (rows xs ys : List A)
      → Pairs (AreApart before) rows
      → Orders before rows xs
      → Orders before rows ys
      → xs ≡ ys
  Orders-unique rows xs ys d p q =
      let turn : (x y : A) → AreApart before x y → AreApart before y x =
        λ x y a. elim a [ inl e ↦ inr e | inr e ↦ inl e ] in
      Pairs-unique xs ys (sorted_strict xs (Perm-Pairs (AreApart before) turn p.perm d) p.sorted)
        (sorted_strict ys (Perm-Pairs (AreApart before) turn q.perm d) q.sorted)
        (Perm-IsIn (Permᴰ.trans (Permᴰ.symm q.perm) p.perm))
        (Perm-IsIn (Permᴰ.trans (Permᴰ.symm p.perm) q.perm))
