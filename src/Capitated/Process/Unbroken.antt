-- ===== src/Capitated/Process/Unbroken.antt =====
-- The contract of a row of _process_spreadsheet_rows, and the unique constraint of the monthly records.
use yastubo_python.Prelude.{
  ◌≡◌, ◌≢◌, refl, ap, ◌∙◌, sym, true, false, Bool, ◌&&◌, Option, none, some, List, [], ◌∷◌, any,
  select, All, inl, inr, ◌==◌, Bool-cases, if◌then◌else◌, ℕ,
}
use yastubo_python.Prelude.Int.{ℤ}
use yastubo_python.Prelude.Action.{Result, ok, err, pure, gets, continue, ◌>>=◌}
use yastubo_python.Dates.{Date}
use yastubo_python.Capitated.Tables.{MonthlyRecord, Batch, Person, Contract, is_active, is_open}
use yastubo_python.Capitated.Session.{
  Session, Step, ProcessError, integrity_error, is_month, insert_record, scalar_one_or_none,
  find_active_monthly_record, find_last_active_record, find_contract_for_record, insert_contract,
  save_contract,
}
use yastubo_python.Capitated.Row.{Context, Input, Row, when_applied}
use yastubo_python.Capitated.Contracts.{
  create_new_contract, enter, expire_contract, break_continuity, continue_contract, on_continuity,
  add_record, bill_contract, bill, after_last, after_existing, with_person, resolve_contract,
  new_record,
}
use yastubo_python.Capitated.Prices.{Price, row_price}
use yastubo_python.Capitated.Process.Frame.{frame, find_active_monthly_record-frame}
use yastubo_python.Capitated.Process.Settled.{after_last-frame}
use yastubo_python.Capitated.Frame.{when_applied-cases}

-- the step returned, or raised something else than a broken constraint
abbrev Spares : {A : Type 0} → Result ProcessError A × Session → Type 0
Spares (ok a, s) = Unit
Spares (err e, s) = e ≢ integrity_error

-- the step does so in every session
record Calm {A : Type 0} (m : Step A) : Type 0 where
  at : (s : Session) → Spares (m s)

module _ {A B : Type 0} where
  Spares-continue :
      (f : A → Step B) (r : Result ProcessError A) (s : Session)
      → Spares (r, s)
      → ((a : A) → r ≡ ok a → Spares (f a s))
      → Spares (continue f r s)
  Spares-continue f (ok a) s h k = k a refl
  Spares-continue f (err e) s h k = h

  Spares-bind :
      (m : Step A) (f : A → Step B) (s : Session)
      → Spares (m s)
      → ((a : A) (s' : Session) → m s ≡ (ok a, s') → Spares (f a s'))
      → Spares ((m >>= f) s)
  Spares-bind m f s h k =
      let (r, s') = m s in Spares-continue f r s' h (λ a e. k a s' (λ i. (e i, s')))

  Calm-bind : (m : Step A) (f : A → Step B) → Calm m → ((a : A) → Calm (f a)) → Calm (m >>= f)
  Calm-bind m f h k = record { at = λ s. Spares-bind m f s (h.at s) (λ a t _. (k a).at t) }

module _ {A : Type 0} where
  Calm-pure : (a : A) → Calm (pure a)
  Calm-pure a = record { at = λ s. tt }

  Calm-gets : (f : Session → A) → Calm (gets f)
  Calm-gets f = record { at = λ s. tt }

  Calm-if : (b : Bool) (m n : Step A) → Calm m → Calm n → Calm (if b then m else n)
  Calm-if true m n h k = h
  Calm-if false m n h k = k

  Calm-scalar : (xs : List A) → Calm (scalar_one_or_none xs)
  unfolding scalar_one_or_none
  Calm-scalar [] = record { at = λ s. tt }
  Calm-scalar (x ∷ []) = record { at = λ s. tt }
  Calm-scalar (x ∷ y ∷ xs) = record { at = λ s e. cc }

ruleset calm_rules = (Calm-bind, Calm-pure, Calm-gets, Calm-if)

save_contract-Calm : (c : Contract) → Calm (save_contract c)
unfolding save_contract
save_contract-Calm c = record { at = λ s. tt }

module _ (x : Context) (p : Person) where
  create-Calm : (a : Option ℤ) → Calm (create_new_contract x p a)
  unfolding create_new_contract insert_contract
  create-Calm a = record { at = λ s. tt }

  enter-Calm : (row : Row) → Calm (enter x p row)
  unfolding enter
  enter-Calm row = search (calm_rules, create-Calm)

  expire-Calm : (o : Option Contract) → Calm (expire_contract x o)
  unfolding expire_contract
  expire-Calm none = Calm-pure tt
  expire-Calm (some c) = search (calm_rules, save_contract-Calm)

  break-Calm : (row : Row) (o : Option Contract) → Calm (break_continuity x p row o)
  unfolding break_continuity
  break-Calm row o = search (calm_rules, create-Calm, expire-Calm)

  continue-Calm : (row : Row) (o : Option Contract) → Calm (continue_contract x p row o)
  unfolding continue_contract
  continue-Calm row none = enter-Calm row
  continue-Calm row (some c) = search (calm_rules, save_contract-Calm)

  on_continuity-Calm :
      (row : Row) (d : Date) (o : Option Contract) → Calm (on_continuity x p row d o)
  unfolding on_continuity
  on_continuity-Calm row d o = search (calm_rules, break-Calm, continue-Calm)

  find_contract-Calm : (k : ℕ) → Calm (find_contract_for_record k)
  unfolding find_contract_for_record
  find_contract-Calm k = record {
    at = λ s. (Calm-scalar (select (λ c. c.id == k && is_open c.status) s.contracts)).at s;
  }

  after_last-Calm : (row : Row) (o : Option MonthlyRecord) → Calm (after_last x p row o)
  unfolding after_last
  after_last-Calm row none = enter-Calm row
  after_last-Calm row (some l) = search (calm_rules, find_contract-Calm, on_continuity-Calm)

-- where every record is active, a month that is not found among the active ones is not there
no_month :
    (f : MonthlyRecord → Bool) (rs : List MonthlyRecord)
    → All (λ r. is_active r.status ≡ true) rs
    → select (λ r. f r && is_active r.status) rs ≡ []
    → any f rs ≡ false
no_month f [] h e = refl
no_month f (r ∷ rs) h e = elim (Bool-cases (f r)) [
  | inl t ↦ absurd (cc (rw (t, h.0) at e))
  | inr t ↦ rw t (no_month f rs h.1 (rw t at e))
]

none_found :
    (rs : List MonthlyRecord) (s t : Session) → scalar_one_or_none rs s ≡ (ok none, t) → rs ≡ []
unfolding scalar_one_or_none
none_found [] s t e = refl
none_found (r ∷ []) s t e = absurd (cc)
none_found (r ∷ q ∷ rs) s t e = absurd (cc)

module _ (x : Context) (i : Input) (p : Person) where
  -- the table has no record of the person for the month of the load
  abbrev IsFree : Session → Type 0
  IsFree s = any (is_month x.company_id x.meta.product.id p.id x.coverage_month) s.records ≡ false

  IsFree-frame : (s t : Session) → frame t ≡ frame s → IsFree s → IsFree t
  IsFree-frame s t e h =
      ap
        (λ (q : List MonthlyRecord × Batch).
          any (is_month x.company_id x.meta.product.id p.id x.coverage_month) q.0)
        e
      ∙ h

  add_record-Spares :
      (row : Row) (c : Contract) (price : Option Price) (s : Session)
      → IsFree s
      → Spares (add_record x i row p c price s)
  unfolding add_record insert_record new_record
  add_record-Spares row c none s h = tt
  add_record-Spares row c (some price) s h = rw h tt

  bill-Spares :
      (row : Row) (o : Option Contract) (s : Session)
      → IsFree s
      → Spares (bill_contract x i p row o s)
  bill-Spares row none s h = tt
  bill-Spares row (some c) s h = add_record-Spares row c (row_price x row) s h

  when_bill-Spares : (row : Row) (s : Session) → IsFree s → Spares (when_applied (bill x i p) row s)
  unfolding bill
  when_bill-Spares row s h = elim (when_applied-cases (bill x i p) row) [
    | inl (e, w) ↦ rw w (bill-Spares row row.contract s h)
    | inr (ne, w) ↦ rw w tt
  ]

  after_existing-Spares :
      (row : Row) (o : Option MonthlyRecord) (s : Session)
      → (o ≡ none → IsFree s)
      → Spares (after_existing x i p row o s)
  unfolding after_existing find_last_active_record
  after_existing-Spares row (some r) s h = tt
  after_existing-Spares row none s h =
      Spares-bind (find_last_active_record x.company_id x.meta.product.id p.id) _ s tt (λ last t et.
        Spares-bind (after_last x p row last) _ t ((after_last-Calm x p row last).at t) (λ r u eu.
          when_bill-Spares r u (
            IsFree-frame s u
              (ap (λ q. frame q.1) (sym eu)
                ∙ ((after_last-frame x p row last).at t ∙ ap (λ q. frame q.1) (sym et)))
              (h refl))))

  with_person-Spares :
      (row : Row) (s : Session)
      → All (λ r. is_active r.status ≡ true) s.records
      → Spares (with_person x i row (some p) s)
  unfolding find_active_monthly_record
  with_person-Spares row s h =
      let f = is_month x.company_id x.meta.product.id p.id x.coverage_month in
      let rows = select (λ r. f r && is_active r.status) s.records in
      Spares-bind (find_active_monthly_record x.company_id x.meta.product.id p.id x.coverage_month)
        _ s ((Calm-scalar rows).at s)
        (λ o t e. after_existing-Spares row o t (λ n.
          let e' : scalar_one_or_none rows s ≡ (ok none, t) = rw n at e in
          let kept : frame t ≡ frame s =
            ap (λ q. frame q.1) (sym e)
            ∙ (find_active_monthly_record-frame x.company_id x.meta.product.id p.id
                  x.coverage_month).at
                s in
          IsFree-frame s t kept (no_month f s.records h (none_found rows s t e'))))

person-Spares :
    (x : Context) (i : Input) (row : Row) (o : Option Person) (s : Session)
    → All (λ r. is_active r.status ≡ true) s.records
    → Spares (with_person x i row o s)
person-Spares x i row none s h = tt
person-Spares x i row (some p) s h = with_person-Spares x i p row s h

not_broken :
    {A : Type 0} (r : Result ProcessError A × Session) → Spares r → r.0 ≡ err integrity_error → ⊥
not_broken (ok a, t) h e = absurd (cc)
not_broken (err k, t) h e = let same : k ≡ integrity_error = cc in h same

-- In a table whose monthly records are all active, the contract and the month of a row never run into
-- the unique constraint of the monthly records: a month that the person already has is found before.
pub resolve_contract_unbroken :
    (x : Context) (i : Input) (row : Row) (s : Session)
    → All (λ r. is_active r.status ≡ true) s.records
    → (resolve_contract x i row s).0 ≢ err integrity_error
unfolding resolve_contract
resolve_contract_unbroken x i row s h e =
    not_broken (with_person x i row row.person s) (person-Spares x i row row.person s h) e
