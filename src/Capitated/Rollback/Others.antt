-- ===== src/Capitated/Rollback/Others.antt =====
-- rollback_batch and the monthly records of other batches.
use yastubo_python.Prelude.{
  ℕ, ◌≡◌, refl, ap, ◌∙◌, true, false, not, inl, inr, List, [], ◌∷◌, map, select, ◌==◌, Bool-cases,
  All, Distinct, member, arith,
}
use yastubo_python.Prelude.Action.{Result, ok, err, continue}
use yastubo_python.Capitated.Tables.{MonthlyRecord}
use yastubo_python.Capitated.Session.{Session, Step}
use yastubo_python.Capitated.Rollback.{
  Request, is_of_batch, can_rollback_batch, can_rollback_monthly_record, refresh,
  rollback_monthly_record_inner, rollback_records, rollback_found, rollback_batch,
}
use yastubo_python.Capitated.Rollback.Records.{
  is_wrong, is_refused, is_marked, marked, refresh-records, rollback_monthly_record_inner-records,
}

-- the records that do not belong to the batch
abbrev pub others : ℕ → ℕ → List MonthlyRecord → List MonthlyRecord
others k b = select (λ r. not (is_of_batch k b r))

-- the primary keys of the table
abbrev pub ids : List MonthlyRecord → List ℕ
ids = map (λ r. r.id)

module _ (k b : ℕ) where
  -- the rows with the key of `r` are rows of the batch
  abbrev KeyInBatch : List MonthlyRecord → MonthlyRecord → Type 0
  KeyInBatch rs r = All (λ m. m.id ≡ r.id → is_of_batch k b m ≡ true) rs

  others-marked :
      (q : Request) (r : MonthlyRecord) (rs : List MonthlyRecord)
      → KeyInBatch rs r
      → others k b (marked q r rs) ≡ others k b rs
  others-marked q r [] h = refl
  others-marked q r (m ∷ rs) h = ground (arith, others-marked q r rs h.1, h.0)

  marked-KeyInBatch :
      (q : Request) (r p : MonthlyRecord) (rs : List MonthlyRecord)
      → KeyInBatch rs p
      → KeyInBatch (marked q r rs) p
  marked-KeyInBatch q r p [] h = tt
  marked-KeyInBatch q r p (m ∷ rs) h = elim (Bool-cases (m.id == r.id)) [
    | inl e ↦ rw e (h.0, marked-KeyInBatch q r p rs h.1)
    | inr e ↦ rw e (h.0, marked-KeyInBatch q r p rs h.1)
  ]

  marked-keys :
      (q : Request) (r : MonthlyRecord) (rs ps : List MonthlyRecord)
      → All (KeyInBatch rs) ps
      → All (KeyInBatch (marked q r rs)) ps
  marked-keys q r rs [] h = tt
  marked-keys q r rs (p ∷ ps) h = (marked-KeyInBatch q r p rs h.0, marked-keys q r rs ps h.1)

  -- a key that is not in the table
  fresh_key :
      (rs : List MonthlyRecord) (r : MonthlyRecord) → member r.id (ids rs) ≡ false → KeyInBatch rs r
  fresh_key [] r h = tt
  fresh_key (m ∷ rs) r h = ground (arith, fresh_key rs r)

  weaken_keys :
      (m : MonthlyRecord) (rs ps : List MonthlyRecord)
      → member m.id (ids ps) ≡ false
      → All (KeyInBatch rs) ps
      → All (KeyInBatch (m ∷ rs)) ps
  weaken_keys m rs [] h a = tt
  weaken_keys m rs (p ∷ ps) h a = ground (arith, weaken_keys m rs ps, a.0, a.1)

  member-select :
      (j : ℕ) (rs : List MonthlyRecord)
      → member j (ids rs) ≡ false
      → member j (ids (select (is_of_batch k b) rs)) ≡ false
  member-select j [] h = refl
  member-select j (r ∷ rs) h = ground (arith, member-select j rs)

  -- with distinct keys, the records that a rollback finds have keys of the batch
  found_keys :
      (rs : List MonthlyRecord)
      → Distinct (ids rs)
      → All (KeyInBatch rs) (select (is_of_batch k b) rs)
  found_keys [] h = tt
  found_keys (r ∷ rs) h =
      let rest =
        weaken_keys r rs (select (is_of_batch k b) rs) (member-select r.id rs h.0)
          (found_keys rs h.1) in
      elim (Bool-cases (is_of_batch k b r)) [
        | inl e ↦ rw e (((λ _. e), fresh_key rs r h.0), rest)
        | inr e ↦ rw e rest
      ]

  -- one rollback and what comes after it
  others-continue :
      (f : Unit {0} → Step (Unit {0})) (r : Result _ (Unit {0})) (s t : Session)
      (ps : List MonthlyRecord)
      → ((u : Session)
          → All (KeyInBatch u.records) ps
          → others k b (f tt u).1.records ≡ others k b u.records)
      → others k b t.records ≡ others k b s.records
      → All (KeyInBatch t.records) ps
      → others k b (continue f r t).1.records ≡ others k b s.records
  others-continue f (ok tt) s t ps ih e h = ih t h ∙ e
  others-continue f (err x) s t ps ih e h = e

  step-others :
      (q : Request) (r : MonthlyRecord) (ps : List MonthlyRecord) (s : Session)
      → KeyInBatch s.records r
      → All (KeyInBatch s.records) ps
      → let t = (rollback_monthly_record_inner q r false s).1 in
        (others k b t.records ≡ others k b s.records) × All (KeyInBatch t.records) ps
  step-others q r ps s h a = elim (rollback_monthly_record_inner-records q r false s) [
    | is_wrong _ _ e ↦ rw e (refl, a)
    | is_refused _ _ _ e ↦ rw e (refl, a)
    | is_marked _ _ e ↦ rw e (others-marked q r s.records h, marked-keys q r s.records ps a)
  ]

  rollback_records-others :
      (q : Request) (rs : List MonthlyRecord) (s : Session)
      → All (KeyInBatch s.records) rs
      → others k b (rollback_records q rs s).1.records ≡ others k b s.records
  unfolding rollback_records
  rollback_records-others q [] s h = refl
  rollback_records-others q (r ∷ rs) s h = elim (Bool-cases (can_rollback_monthly_record r s)) [
    | inr f ↦ rw f (rollback_records-others q rs s h.1)
    | inl f ↦ rw f (
        let (e, a) = step-others q r rs s h.0 h.1 in
        others-continue (λ _. rollback_records q rs) (rollback_monthly_record_inner q r false s).0 s
          (rollback_monthly_record_inner q r false s).1 rs (rollback_records-others q rs) e a)
  ]

  rollback_found-others :
      (q : Request) (rs : List MonthlyRecord) (s : Session)
      → All (KeyInBatch s.records) rs
      → others k b (rollback_found q rs s).1.records ≡ others k b s.records
  unfolding rollback_found
  rollback_found-others q [] s h = refl
  rollback_found-others q (r ∷ rs) s h =
      others-continue (λ _. refresh q) (rollback_records q (r ∷ rs) s).0 s
        (rollback_records q (r ∷ rs) s).1 [] (λ u _. ap (others k b) ((refresh-records q).at u))
        (rollback_records-others q (r ∷ rs) s h) tt

-- Where the keys of the monthly records are distinct, the rollback of a batch, whether it returns or
-- raises, leaves every monthly record of another batch or company as it is.
pub rollback_batch-others :
    (q : Request) (s : Session)
    → Distinct (ids s.records)
    → others q.company_id s.batch.id (rollback_batch q s).1.records
      ≡ others q.company_id s.batch.id s.records
unfolding rollback_batch
rollback_batch-others q s h = elim (Bool-cases (s.batch.company_id == q.company_id)) [
  | inr e ↦ rw e refl
  | inl e ↦ elim (Bool-cases (can_rollback_batch s)) [
    | inr f ↦ rw e (rw f refl)
    | inl f ↦ rw e (
        rw f (
          rollback_found-others q.company_id s.batch.id q
            (select (is_of_batch q.company_id s.batch.id) s.records) s
            (found_keys q.company_id s.batch.id s.records h)))
  ]
]
