-- ===== src/Capitated/Frame.antt =====
-- What a step leaves alone, and what it ensures: one rule for each way to build a step.
use yastubo_python.Prelude.{
  ◌≡◌, ◌≢◌, ◌⊎◌, inl, inr, refl, ◌∙◌, Bool, true, false, if◌then◌else◌, ap, subst, sym,
}
use yastubo_python.Prelude.Action.{Result, ok, err, pure, raise, raise_if, gets, continue, ◌>>=◌}
use yastubo_python.Capitated.Tables.{Outcome, applied, rejected, duplicated, incongruence}
use yastubo_python.Capitated.Session.{Session, Step, ProcessError}
use yastubo_python.Capitated.Row.{Row, when_applied}

-- `view` is the same after the step as before it, whether the step returns or raises.
pub record Keeps {A V : Type 0} (view : Session → V) (m : Step A) : Type 0 where
  pub at : (s : Session) → view (m s).1 ≡ view s

module _ {A V : Type 0} {view : Session → V} where
  pub Keeps-pure : (a : A) → Keeps view (pure a)
  Keeps-pure a = record { at = λ s. refl }

  pub Keeps-raise : (e : ProcessError) → Keeps view (raise {A = A} e)
  Keeps-raise e = record { at = λ s. refl }

  pub Keeps-gets : (f : Session → A) → Keeps view (gets f)
  Keeps-gets f = record { at = λ s. refl }

  pub Keeps-if :
      (b : Bool) (m n : Step A) → Keeps view m → Keeps view n → Keeps view (if b then m else n)
  Keeps-if true m n km kn = km
  Keeps-if false m n km kn = kn

module _ {A B V : Type 0} {view : Session → V} where
  Keeps-continue :
      (f : A → Step B) (r : Result ProcessError A) (s : Session)
      → ((a : A) → Keeps view (f a))
      → view (continue f r s).1 ≡ view s
  Keeps-continue f (ok a) s k = (k a).at s
  Keeps-continue f (err e) s k = refl

  pub Keeps-bind :
      (m : Step A) (f : A → Step B)
      → Keeps view m
      → ((a : A) → Keeps view (f a))
      → Keeps view (m >>= f)
  Keeps-bind m f km kf = record {
    at = λ s. let (r, s') = m s in Keeps-continue f r s' kf ∙ km.at s;
  }

module _ {V : Type 0} {view : Session → V} where
  pub Keeps-raise_if : (b : Bool) (e : ProcessError) → Keeps view (raise_if b e)
  Keeps-raise_if true e = record { at = λ s. refl }
  Keeps-raise_if false e = record { at = λ s. refl }

  Keeps-when :
      (f : Row → Step Row) (row : Row) (o : Outcome)
      → Keeps view (f row)
      → Keeps view (elim o [ applied ↦ f row | _ ↦ pure row ])
  Keeps-when f row applied k = k
  Keeps-when f row rejected k = Keeps-pure row
  Keeps-when f row duplicated k = Keeps-pure row
  Keeps-when f row incongruence k = Keeps-pure row

  pub Keeps-when_applied :
      (f : Row → Step Row) (row : Row) → Keeps view (f row) → Keeps view (when_applied f row)
  unfolding when_applied
  Keeps-when_applied f row k = Keeps-when f row row.result k

pub ruleset keeps_rules =
    (Keeps-pure, Keeps-raise, Keeps-gets, Keeps-if, Keeps-bind, Keeps-raise_if, Keeps-when_applied)

-- A step that returns does so with `P`; nothing is said of one that raises.
abbrev pub Ensures :
    {A : Type 0} → (A → Session → Type 0) → Result ProcessError A × Session → Type 0
Ensures P (ok a, s) = P a s
Ensures P (err e, s) = Unit

module _ {A B : Type 0} where
  Ensures-continue :
      (P : B → Session → Type 0) (f : A → Step B) (r : Result ProcessError A) (s : Session)
      → ((a : A) → r ≡ ok a → Ensures P (f a s))
      → Ensures P (continue f r s)
  Ensures-continue P f (ok a) s k = k a refl
  Ensures-continue P f (err e) s k = tt

  -- the rest of a block may use what its first step is known to return
  pub Ensures-bind :
      (P : B → Session → Type 0) (m : Step A) (f : A → Step B) (s : Session)
      → ((a : A) (s' : Session) → m s ≡ (ok a, s') → Ensures P (f a s'))
      → Ensures P ((m >>= f) s)
  Ensures-bind P m f s k =
      let (r, s') = m s in Ensures-continue P f r s' (λ a e. k a s' (λ i. (e i, s')))

module _ {A : Type 0} where
  -- what a step ensures, at what it returned
  pub ensured :
      (P : A → Session → Type 0) (r : Result ProcessError A × Session) (a : A) (s : Session)
      → Ensures P r
      → r ≡ (ok a, s)
      → P a s
  ensured P r a s h e = subst (Ensures P) e h

  pub Ensures-map :
      (P Q : A → Session → Type 0) (r : Result ProcessError A × Session)
      → ((a : A) (s : Session) → P a s → Q a s)
      → Ensures P r
      → Ensures Q r
  Ensures-map P Q (ok a, s) f h = f a s h
  Ensures-map P Q (err e, s) f h = tt

module _ {A B V : Type 0} {view : Session → V} where
  -- a step that keeps the view, before one that ensures `P`
  pub Ensures-after :
      (P : B → Session → Type 0) (m : Step A) (f : A → Step B) (s : Session)
      → Keeps view m
      → ((a : A) (s' : Session) → view s' ≡ view s → Ensures P (f a s'))
      → Ensures P ((m >>= f) s)
  Ensures-after P m f s k rest =
      Ensures-bind P m f s (λ a s' e. rest a s' (ap (λ r. view r.1) (sym e) ∙ k.at s))

-- Whatever the session, a step that returns does so with a value that satisfies `P`.
pub record Gives {A : Type 0} (P : A → Type 0) (m : Step A) : Type 0 where
  pub at : (s : Session) → Ensures (λ a _. P a) (m s)

module _ {A : Type 0} {P : A → Type 0} where
  pub Gives-pure : (a : A) → P a → Gives P (pure a)
  Gives-pure a h = record { at = λ s. h }

  pub Gives-raise : (e : ProcessError) → Gives P (raise e)
  Gives-raise e = record { at = λ s. tt }

  pub Gives-if : (b : Bool) (m n : Step A) → Gives P m → Gives P n → Gives P (if b then m else n)
  Gives-if true m n gm gn = gm
  Gives-if false m n gm gn = gn

module _ {A B : Type 0} {P : B → Type 0} where
  pub Gives-bind : (m : Step A) (f : A → Step B) → ((a : A) → Gives P (f a)) → Gives P (m >>= f)
  Gives-bind m f g = record { at = λ s. Ensures-bind (λ b _. P b) m f s (λ a s' e. (g a).at s') }

pub ruleset gives_rules = (Gives-pure, Gives-raise, Gives-if, Gives-bind)

-- `when_applied` by its two cases
pub when_applied-cases :
    (f : Row → Step Row) (row : Row)
    → ((row.result ≡ applied) × (when_applied f row ≡ f row))
      ⊎ ((row.result ≢ applied) × (when_applied f row ≡ pure row))
unfolding when_applied
when_applied-cases f row = go row.result
  where
    go :
        (o : Outcome)
        → ((o ≡ applied) × ((elim o as (λ _. Step Row) [ applied ↦ f row | _ ↦ pure row ]) ≡ f row))
          ⊎ ((o ≢ applied)
              × ((elim o as (λ _. Step Row) [ applied ↦ f row | _ ↦ pure row ]) ≡ pure row))
    go applied = inl (refl, refl)
    go rejected = inr ((λ e. cc), refl)
    go incongruence = inr ((λ e. cc), refl)
    go duplicated = inr ((λ e. cc), refl)

-- a bind whose rest uses what the first step gives
pub Gives-bind_with :
    {A B : Type 0} {P : B → Type 0} (Q : A → Type 0) (m : Step A) (f : A → Step B)
    → Gives Q m
    → ((a : A) → Q a → Gives P (f a))
    → Gives P (m >>= f)
Gives-bind_with {P = P} Q m f g k = record {
  at = λ s.
      Ensures-bind (λ b _. P b) m f s
        (λ a s' e. (k a (ensured (λ a _. Q a) (m s) a s' (g.at s) e)).at s');
}
