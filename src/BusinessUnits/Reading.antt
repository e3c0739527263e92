-- ===== src/BusinessUnits/Reading.antt =====
-- Actions of business_units_controller.py that only read, and what holds when an action returns.
use yastubo_python.Prelude.{
  ℕ, ◌≡◌, refl, ap, inl, inr, Bool, true, false, Option, none, some, List, [], ◌∷◌, is_some, any,
  select, All, Bool-cases, Option-cases,
}
use yastubo_python.Prelude.Action.{ok, raise_if, ◌>>=◌}
use yastubo_python.Prelude.Database.{
  row_or, require, Reads, Returns, Reads-require, Reads-raise_if, Reads-bind, Returns-read,
}
use yastubo_python.Prelude.Rows.{All-found}
use yastubo_python.Units.{find_unit}
use yastubo_python.BusinessUnits.{Session, Handler, HttpError, Loaded, scalar_one_or_none, get_unit}
use yastubo_python.BusinessUnits.Members.{refuse_row}

module _ {A : Type 0} where
  pub Reads-scalar : (rows : List A) → Reads (scalar_one_or_none rows)
  Reads-scalar [] = record { at = λ s. refl }
  Reads-scalar (x ∷ []) = record { at = λ s. refl }
  Reads-scalar (x ∷ y ∷ rows) = record { at = λ s. refl }

pub Reads-get_unit : (k : ℕ) → Reads (get_unit k)
unfolding get_unit
Reads-get_unit k = record {
  at = λ s. elim (Option-cases (find_unit k s.units)) [
    | inl e ↦ rw (e, get_unit)
    | inr (u, e) ↦ rw (e, get_unit)
  ];
}

pub Reads-refuse_row : {A : Type 0} (rows : List A) (e : HttpError) → Reads (refuse_row rows e)
Reads-refuse_row rows e =
    Reads-bind (scalar_one_or_none rows) (λ row. raise_if (is_some row) e) (Reads-scalar rows)
      (λ row. Reads-raise_if (is_some row) e)

refuse_row-refuses :
    {A : Type 0} (x : A) (rows : List A) (e : HttpError) (s : Session) (u : Unit {0})
    → ¬ (refuse_row (x ∷ rows) e s ≡ (ok u, s))
refuse_row-refuses x [] e s u h = absurd (cc)
refuse_row-refuses x (y ∷ rows) e s u h = absurd (cc)

-- A query that passed the refusal found nothing.
pub refuse_row-empty :
    {A : Type 0} (p : A → Bool) (rows : List A) (e : HttpError) (s : Session) (u : Unit {0})
    → refuse_row (select p rows) e s ≡ (ok u, s)
    → any p rows ≡ false
refuse_row-empty p [] e s u h = refl
refuse_row-empty p (x ∷ rows) e s u h = elim (Bool-cases (p x)) [
  | inl t ↦ absurd (refuse_row-refuses x (select p rows) e s u (rw t at h))
  | inr t ↦ rw t (refuse_row-empty p rows e s u (rw t at h))
]

found_row :
    {A : Type 0} (xs : List A) (o : Option A) (a : A) (e : HttpError) (s : Session)
    → scalar_one_or_none xs s ≡ (ok o, s)
    → require e o s ≡ (ok a, s)
    → (rest : List A) × (xs ≡ a ∷ rest)
found_row [] o a e s h r =
    let none_found : none ≡ o = ap (λ x. row_or none x) h in absurd (cc (rw (← none_found) at r))
found_row (x ∷ []) o a e s h r =
    let one : some x ≡ o = ap (λ y. row_or none y) h in
    let r' : (ok x, s) ≡ (ok a, s) = rw (← one) at r in ([], ap (λ y. row_or x y ∷ []) r')
found_row (x ∷ y ∷ xs) o a e s h r = absurd (cc)

-- The row that a query found, and its test.
pub required-found :
    {A : Type 0} (P : A → Type 0) (q : A → Bool) (rows : List A) (o : Option A) (a : A)
    (e : HttpError) (s : Session)
    → All P rows
    → scalar_one_or_none (select q rows) s ≡ (ok o, s)
    → require e o s ≡ (ok a, s)
    → P a × (q a ≡ true)
required-found P q rows o a e s h found req =
    let (rest, eq) = found_row (select q rows) o a e s found req in All-found P q a rows rest h eq

module _ {B : Type 0} (Q : B → Session → Type 0) where
  pub Returns-get_unit :
      (k : ℕ) (f : Loaded → Handler B) (s : Session)
      → ((l : Loaded) → Returns Q (f l s))
      → Returns Q ((get_unit k >>= f) s)
  Returns-get_unit k f s h = Returns-read Q (get_unit k) f s (Reads-get_unit k) (λ l _. h l)

  pub Returns-raise_if :
      (b : Bool) (e : HttpError) (f : Unit {0} → Handler B) (s : Session)
      → Returns Q (f tt s)
      → Returns Q ((raise_if b e >>= f) s)
  Returns-raise_if true e f s h = tt
  Returns-raise_if false e f s h = h

  pub Returns-refused :
      {A : Type 0} (p : A → Bool) (rows : List A) (e : HttpError) (f : Unit {0} → Handler B)
      (s : Session)
      → (any p rows ≡ false → Returns Q (f tt s))
      → Returns Q ((refuse_row (select p rows) e >>= f) s)
  Returns-refused p rows e f s h =
      Returns-read Q (refuse_row (select p rows) e) f s (Reads-refuse_row (select p rows) e)
        (λ u r. h (refuse_row-empty p rows e s u r))

  pub Returns-found :
      {A : Type 0} (P : A → Type 0) (p : A → Bool) (rows : List A) (e : HttpError)
      (f : A → Handler B) (s : Session)
      → All P rows
      → ((a : A) → P a → p a ≡ true → Returns Q (f a s))
      → Returns Q ((scalar_one_or_none (select p rows) >>= λ o. require e o >>= f) s)
  Returns-found P p rows e f s all h =
      Returns-read Q (scalar_one_or_none (select p rows)) (λ o. require e o >>= f) s
        (Reads-scalar (select p rows))
        (λ o r.
          Returns-read Q (require e o) f s (Reads-require e o)
            (λ a r'. let (x, t) = required-found P p rows o a e s all r r' in h a x t))
