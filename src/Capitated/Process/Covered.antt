-- ===== src/Capitated/Process/Covered.antt =====
-- The contract that enter, break_continuity and continue_contract, parts of _process_spreadsheet_rows,
-- leave in the table.
use yastubo_python.Prelude.{
  ℕ, ◌≡◌, ◌≢◌, refl, sym, subst, ◌⊎◌, inl, inr, Bool, true, false, ◌&&◌, Option, none, some, List,
  [], ◌∷◌, ◌++◌, select, update_where, Any, ◌==◌, ==_refl, Bool-cases,
}
use yastubo_python.Prelude.Action.{ok}
use yastubo_python.Dates.{date_ltb, add_month, end_of_month, normalize_coverage_month}
use yastubo_python.Capitated.Tables.{
  ContractStatus, is_open, is_active_contract, MonthlyRecord, Person, Contract, applied,
}
use yastubo_python.Capitated.Session.{Session, insert_contract, save_contract}
use yastubo_python.Capitated.Row.{Context, Row}
use yastubo_python.Capitated.Contracts.{
  exceeds, new_contract, create_new_contract, enter, expire_contract, break_continuity, renewed,
  continue_contract,
}
use yastubo_python.Capitated.Frame.{Ensures}

abbrev pub Stands : Contract → List Contract → Type 0
Stands c = Any (λ d. d ≡ c)

Stands-last : (c : Contract) (cs : List Contract) → Stands c (cs ++ c ∷ [])
Stands-last c [] = inl refl
Stands-last c (d ∷ cs) = inr (Stands-last c cs)

Stands-saved :
    (old c : Contract) (cs : List Contract)
    → c.id ≡ old.id
    → Stands old cs
    → Stands c (update_where (λ d. d.id == c.id) (λ _. c) cs)
Stands-saved old c [] k h = absurd h
Stands-saved old c (d ∷ cs) k (inl e) =
    let same : (d.id == c.id) ≡ true = rw (e, k) (==_refl old.id) in rw same (inl refl)
Stands-saved old c (d ∷ cs) k (inr h) = elim (Bool-cases (d.id == c.id)) [
  | inl t ↦ rw t (inr (Stands-saved old c cs k h))
  | inr t ↦ rw t (inr (Stands-saved old c cs k h))
]

Stands-found :
    (f : Contract → Bool) (d : Contract) (cs : List Contract)
    → select f cs ≡ d ∷ []
    → Stands d cs × (f d ≡ true)
Stands-found f d [] e = absurd (cc)
Stands-found f d (c ∷ cs) e = elim (Bool-cases (f c)) [
  | inl t ↦
      let e' : c ∷ select f cs ≡ d ∷ [] = rw t at e in
      let same : c ≡ d = cc in (inl same, rw same at t)
  | inr t ↦ let (h, k) = Stands-found f d cs (rw t at e) in (inr h, k)
]

abbrev pub is_open_key : ℕ → Contract → Bool
is_open_key k c = c.id == k && is_open c.status

module _ (x : Context) (p : Person) (row : Row) (s : Session) where
  -- the month after the last one is before the month of the load
  abbrev pub is_late : MonthlyRecord → Bool
  is_late l = date_ltb (add_month (normalize_coverage_month l.coverage_month)) x.coverage_month

  -- no last month, a missing month, or no open contract of the last month
  abbrev pub WhyEntered : Option MonthlyRecord → Type 0
  WhyEntered last =
      (last ≡ none)
      ⊎ ((l : MonthlyRecord) × (last ≡ some l)
          × ((is_late l ≡ true) ⊎ (select (is_open_key l.contract_id) s.contracts ≡ [])))

  -- The contract is a new one: the person has no last month, or a month is missing after it, or its
  -- contract is not there or not open; and the age is within the limit for an entry.
  pub record Entered (last : Option MonthlyRecord) (c : Contract) : Type 0 where
    pub why : WhyEntered last
    pub limit : exceeds x.meta.plan_version.max_entry_age row.age ≡ false
    pub number : c.id ≡ s.next_contract
    pub holder : c.person_id ≡ p.id
    pub age : c.entry_age ≡ row.age

  -- The contract is that of the last month, which was open; no month is missing, and the age is within
  -- the limit for a renewal.
  pub record Renewed (last : Option MonthlyRecord) (c : Contract) : Type 0 where
    pub month : MonthlyRecord
    pub old : Contract
    pub is_last : last ≡ some month
    pub in_time : is_late month ≡ false
    pub stood : Stands old s.contracts
    pub was_open : is_open_key month.contract_id old ≡ true
    pub limit : exceeds x.meta.plan_version.max_renewal_age row.age ≡ false
    pub same_key : c.id ≡ old.id
    pub same_entry : c.entry_date ≡ old.entry_date

  -- the row is not applied, or its contract stands in the table, active to the end of the month
  pub record Covered (last : Option MonthlyRecord) (r : Row) (t : Session) : Type 0 where
    pub contract : Contract
    pub is_contract : r.contract ≡ some contract
    pub stands : Stands contract t.contracts
    pub is_active : contract.status ≡ ContractStatus.active
    pub valid_until : contract.valid_until ≡ some (end_of_month x.coverage_month)
    pub origin : Entered last contract ⊎ Renewed last contract

  abbrev pub IsCovered : Option MonthlyRecord → Row → Session → Type 0
  IsCovered last r t = (r.result ≢ applied) ⊎ Covered last r t

  entered :
      (last : Option MonthlyRecord) (r : Row) (t : Session) (cs : List Contract)
      → WhyEntered last
      → exceeds x.meta.plan_version.max_entry_age row.age ≡ false
      → r.contract ≡ some (new_contract x p row.age s.next_contract)
      → t.contracts ≡ cs ++ new_contract x p row.age s.next_contract ∷ []
      → Covered last r t
  unfolding new_contract
  entered last r t cs why e c same = record {
    contract = new_contract x p row.age s.next_contract;
    is_contract = c;
    stands =
        subst (Stands (new_contract x p row.age s.next_contract)) (sym same)
          (Stands-last (new_contract x p row.age s.next_contract) cs);
    is_active = refl;
    valid_until = refl;
    origin = inl (record { why = why; limit = e; number = refl; holder = refl; age = refl });
  }

  pub enter-IsCovered :
      (last : Option MonthlyRecord) → WhyEntered last → Ensures (IsCovered last) (enter x p row s)
  unfolding enter create_new_contract insert_contract
  enter-IsCovered last why = elim (Bool-cases (exceeds x.meta.plan_version.max_entry_age row.age)) [
    | inl e ↦ rw (e, enter) (inl (λ h. cc))
    | inr e ↦ rw (e, enter) (inr (entered last _ _ s.contracts why e refl refl))
  ]

  -- the end of a contract changes the table of contracts alone
  expire_contract-cases :
      (o : Option Contract)
      → (expire_contract x o s ≡ (ok tt, s))
        ⊎ ((cs : List Contract) × (expire_contract x o s ≡ (ok tt, record s { contracts = cs })))
  unfolding expire_contract save_contract
  expire_contract-cases none = inl refl
  expire_contract-cases (some d) = elim (Bool-cases (is_active_contract d.status)) [
    | inl t ↦ rw t (inr (_, refl))
    | inr t ↦ rw t (inl refl)
  ]

  -- the contract that ends takes no number
  pub break-IsCovered :
      (l : MonthlyRecord) (o : Option Contract)
      → is_late l ≡ true
      → Ensures (IsCovered (some l)) (break_continuity x p row o s)
  unfolding break_continuity create_new_contract insert_contract expire_contract save_contract
  break-IsCovered l o late = elim (Bool-cases (exceeds x.meta.plan_version.max_entry_age row.age)) [
    | inl e ↦ rw (e, break_continuity) (inl (λ h. cc))
    | inr e ↦
        rw (e, break_continuity)
          (elim (expire_contract-cases o) [
            | inl f ↦
                rw f (inr (entered (some l) _ _ s.contracts (inr (l, refl, inl late)) e refl refl))
            | inr (cs, f) ↦
                rw f (inr (entered (some l) _ _ cs (inr (l, refl, inl late)) e refl refl))
          ])
  ]

  pub continue-IsCovered :
      (l : MonthlyRecord) (o : Option Contract)
      → is_late l ≡ false
      → ((o ≡ none) × (select (is_open_key l.contract_id) s.contracts ≡ []))
        ⊎ ((d : Contract) × (o ≡ some d)
            × (select (is_open_key l.contract_id) s.contracts ≡ d ∷ []))
      → Ensures (IsCovered (some l)) (continue_contract x p row o s)
  unfolding continue_contract renewed save_contract
  continue-IsCovered l none time (inl (e, f)) = enter-IsCovered (some l) (inr (l, refl, inr f))
  continue-IsCovered l none time (inr (d, e, f)) = absurd (cc)
  continue-IsCovered l (some c) time (inl (e, f)) = absurd (cc)
  continue-IsCovered l (some c) time (inr (d, e, f)) =
      let same : d ≡ c = cc in
      let (stood, is_there) =
        Stands-found (is_open_key l.contract_id) c s.contracts (rw same at f) in
      elim (Bool-cases (exceeds x.meta.plan_version.max_renewal_age row.age)) [
        | inl b ↦ rw (b, continue_contract) (inl (λ h. cc))
        | inr b ↦
            rw (b, continue_contract)
              (inr (record {
                contract = renewed x.coverage_month c;
                is_contract = refl;
                stands = Stands-saved c (renewed x.coverage_month c) s.contracts refl stood;
                is_active = refl;
                valid_until = refl;
                origin = inr (record {
                  month = l;
                  old = c;
                  is_last = refl;
                  in_time = time;
                  stood = stood;
                  was_open = is_there;
                  limit = b;
                  same_key = refl;
                  same_entry = refl;
                });
              }))
      ]
