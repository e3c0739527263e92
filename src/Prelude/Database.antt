-- ===== src/Prelude/Database.antt =====
-- The session of a request, `get_db` of common/database.py, and rules for actions that only read and
-- for what holds when an action returns.
use mathlib.Core.Path.{◌≡◌, refl, ◌∙◌}
use mathlib.Core.Bool.{Bool, true, false}
use mathlib.Core.Option.{Option, none, some}
use yastubo_python.Prelude.Action.{Result, ok, err, Action, pure, gets, raise_if, continue, ◌>>=◌}

module _ {S E A : Type 0} where
  -- the rollback of `get_db` when a handler raises
  abbrev pub or_rollback : Result E A × S → S → Result E A × S
  or_rollback (ok a, s') s = (ok a, s')
  or_rollback (err e, s') s = (err e, s)

  abbrev pub get_db : Action S E A → Action S E A
  get_db m s = or_rollback (m s) s

  -- `if row is None: raise e`
  abbrev pub require : E → Option A → Action S E A
  require e none s = (err e, s)
  require e (some a) s = (ok a, s)

-- The tables are as before, whether the action returns or raises.
pub record Reads {S E A : Type 0} (m : Action S E A) : Type 0 where
  pub at : (s : S) → (m s).1 ≡ s

-- `Q` holds when the action returned.
abbrev pub Returns : {S E A : Type 0} → (A → S → Type 0) → Result E A × S → Type 0
Returns Q (ok a, s) = Q a s
Returns Q (err e, s) = Unit

module _ {S E A : Type 0} where
  pub Reads-gets : (f : S → A) → Reads {E = E} (gets f)
  Reads-gets f = record { at = λ s. refl }

  pub Reads-pure : (a : A) → Reads (pure {S = S} {E = E} a)
  Reads-pure a = record { at = λ s. refl }

  pub Reads-require : (e : E) (o : Option A) → Reads {S = S} (require e o)
  Reads-require e none = record { at = λ s. refl }
  Reads-require e (some a) = record { at = λ s. refl }

pub Reads-raise_if : {S E : Type 0} (b : Bool) (e : E) → Reads {S = S} (raise_if b e)
Reads-raise_if true e = record { at = λ s. refl }
Reads-raise_if false e = record { at = λ s. refl }

module _ {S E A B : Type 0} where
  Reads-continue :
      (f : A → Action S E B) (o : Result E A × S) (s : S)
      → o.1 ≡ s
      → ((a : A) → Reads (f a))
      → (continue f o.0 o.1).1 ≡ s
  Reads-continue f (ok a, s') s e r = (r a).at s' ∙ e
  Reads-continue f (err x, s') s e r = e

  pub Reads-bind :
      (m : Action S E A) (f : A → Action S E B)
      → Reads m
      → ((a : A) → Reads (f a))
      → Reads (m >>= f)
  Reads-bind m f rm rf = record { at = λ s. Reads-continue f (m s) s (rm.at s) rf }

  Returns-continue :
      (Q : B → S → Type 0) (f : A → Action S E B) (o : Result E A × S) (s : S)
      → o.1 ≡ s
      → ((a : A) → o ≡ (ok a, s) → Returns Q (f a s))
      → Returns Q (continue f o.0 o.1)
  Returns-continue Q f (ok a, s') s e r = rw e (r a (rw e))
  Returns-continue Q f (err x, s') s e r = tt

  -- after a read
  pub Returns-read :
      (Q : B → S → Type 0) (m : Action S E A) (f : A → Action S E B) (s : S)
      → Reads m
      → ((a : A) → m s ≡ (ok a, s) → Returns Q (f a s))
      → Returns Q ((m >>= f) s)
  Returns-read Q m f s rm rf = Returns-continue Q f (m s) s (rm.at s) rf

  Returns-continue-write :
      (P : A → S → Type 0) (Q : B → S → Type 0) (f : A → Action S E B) (o : Result E A × S)
      → Returns P o
      → ((a : A) (s : S) → P a s → Returns Q (f a s))
      → Returns Q (continue f o.0 o.1)
  Returns-continue-write P Q f (ok a, s) p r = r a s p
  Returns-continue-write P Q f (err x, s) p r = tt

  -- after a write
  pub Returns-bind :
      (P : A → S → Type 0) (Q : B → S → Type 0) (m : Action S E A) (f : A → Action S E B) (s : S)
      → Returns P (m s)
      → ((a : A) (s' : S) → P a s' → Returns Q (f a s'))
      → Returns Q ((m >>= f) s)
  Returns-bind P Q m f s p r = Returns-continue-write P Q f (m s) p r

rolled :
    {S E A : Type 0} (P : S → Type 0) (o : Result E A × S) (s : S)
    → P s
    → Returns (λ a s'. P s') o
    → P (or_rollback o s).1
rolled P (ok a, s') s p r = r
rolled P (err e, s') s p r = p

-- a rollback leaves what was
pub Returns-get_db :
    {S E A : Type 0} (P : S → Type 0) (m : Action S E A) (s : S)
    → P s
    → Returns (λ a s'. P s') (m s)
    → P (get_db m s).1
Returns-get_db P m s p r = rolled P (m s) s p r

-- the value that an action returned, or another one
abbrev pub row_or : {S E A : Type 0} → A → Result E A × S → A
row_or a (ok b, s) = b
row_or a (err e, s) = a
