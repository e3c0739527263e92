-- ===== src/Plans/Active.antt =====
-- The look-ups of plan_versions_controller.py, and the invariant of its table of versions.
use yastubo_python.Prelude.{
  any, select, inl, inr, Bool-cases, true, Bool, List, [], ◌∷◌, ℕ, ◌+◌, ◌<◌, ◌≡◌, refl, ap, member,
  false, ◌&&◌, All, ◌==◌, arith,
}
use yastubo_python.Prelude.Action.{ok, gets, ◌>>=◌}
use yastubo_python.Prelude.Database.{
  Reads-bind, Reads-gets, Reads-require, require, row_or, Reads, Returns, Reads-require,
  Returns-read,
}
use yastubo_python.Prelude.Rows.{
  AreDistinct, AreDistinct-append, All-append, All-weaken, All-found, All-unit,
}
use yastubo_python.Prelude.Changes.{IsOther, only_row}
use yastubo_python.Plans.{
  PlanVersionRow, Session, HttpError, Handler, first_row, get_product, is_version, get_version,
  is_active, version_not_found, coverage_not_found, surcharge_not_found,
}
use yastubo_python.Plans.Surcharges.{get_surcharge}
use yastubo_python.Plans.Coverages.{find_coverage}
use yastubo_python.Plans.Versions.{insert_version}

abbrev pub same_id : PlanVersionRow → PlanVersionRow → Bool
same_id v w = v.id == w.id

-- two active versions of one product
abbrev pub are_rivals : PlanVersionRow → PlanVersionRow → Bool
are_rivals v w = v.product_id == w.product_id && (is_active v && is_active w)

-- Keys stand once and are below the next one, and no product has two active versions.
pub record IsPlanTable (s : Session) : Type 0 where
  pub keys : AreDistinct same_id s.versions
  pub below : All (λ v. v.id < s.next_version) s.versions
  pub active_once : AreDistinct are_rivals s.versions

abbrev pub Kept : {A : Type 0} → A → Session → Type 0
Kept a s = IsPlanTable s

pub Reads-get_product : (p : ℕ) → Reads (get_product p)
unfolding get_product
Reads-get_product p = record {
  at = λ s. elim (Bool-cases (member p s.product_ids)) [
    | inl t ↦ rw (t, get_product)
    | inr t ↦ rw (t, get_product)
  ];
}

found_version :
    (rows : List PlanVersionRow) (e : HttpError) (v : PlanVersionRow) (s : Session)
    → require e (first_row rows) s ≡ (ok v, s)
    → (rest : List PlanVersionRow) × (rows ≡ v ∷ rest)
found_version [] e v s h = absurd (cc)
found_version (x ∷ rest) e v s h = (rest, ap (λ o. row_or x o ∷ rest) h)

pub Reads-get_version : (p k : ℕ) → Reads (get_version p k)
unfolding get_version
Reads-get_version p k = record {
  at = λ s. (Reads-require version_not_found (first_row (select (is_version p k) s.versions))).at s;
}

pub Reads-get_surcharge : (p k j : ℕ) → Reads (get_surcharge p k j)
unfolding get_surcharge
Reads-get_surcharge p k j =
    Reads-bind (get_version p k) _ (Reads-get_version p k)
      λ v. Reads-bind (gets _) _ (Reads-gets _) λ row. Reads-require surcharge_not_found row

pub Reads-find_coverage : (p k j : ℕ) → Reads (find_coverage p k j)
unfolding find_coverage
Reads-find_coverage p k j =
    Reads-bind (get_version p k) _ (Reads-get_version p k)
      λ v. Reads-bind (gets _) _ (Reads-gets _) λ row. Reads-require coverage_not_found row

-- what `_get_version` returns has the keys of the request
pub get_version-is_version :
    (p k : ℕ) (s : Session) (v : PlanVersionRow)
    → get_version p k s ≡ (ok v, s)
    → is_version p k v ≡ true
unfolding get_version
get_version-is_version p k s v e =
    let (rest, eq) = found_version (select (is_version p k) s.versions) version_not_found v s e in
    (All-found (λ _. Unit) (is_version p k) v s.versions rest (All-unit s.versions) eq).1

any-select :
    (q : PlanVersionRow → Bool) (p : PlanVersionRow → Bool) (v : PlanVersionRow)
    (xs rest : List PlanVersionRow)
    → select q xs ≡ v ∷ rest
    → ((x : PlanVersionRow) → q x ≡ true → p x ≡ true)
    → any p xs ≡ true
any-select q p v [] rest e h = absurd (cc)
any-select q p v (x ∷ xs) rest e h = elim (Bool-cases (p x)) [
  | inl t ↦ rw t refl
  | inr t ↦ elim (Bool-cases (q x)) [
    | inl u ↦ absurd (cc (h x u, t))
    | inr u ↦ rw t (any-select q p v xs rest (rw u at e) h)
  ]
]

-- the version that `_get_version` returns is in the table
pub get_version-is_key :
    (p k : ℕ) (s : Session) (v : PlanVersionRow)
    → get_version p k s ≡ (ok v, s)
    → any (λ x. x.id == k) s.versions ≡ true
unfolding get_version
get_version-is_key p k s v e =
    let (rest, eq) = found_version (select (is_version p k) s.versions) version_not_found v s e in
    any-select (is_version p k) (λ x. x.id == k) v s.versions rest eq (λ x t. ground (arith, t))

pub get_version_still :
    (p k : ℕ) (s s' : Session) (v : PlanVersionRow)
    → s'.versions ≡ s.versions
    → get_version p k s ≡ (ok v, s)
    → get_version p k s' ≡ (ok v, s')
unfolding get_version
get_version_still p k s s' v same e =
    let (rest, eq) = found_version (select (is_version p k) s.versions) version_not_found v s e in
    rw (same, eq) refl

-- After `_get_version`: the row that it found is the only one with its key.
pub Returns-get_version :
    {B : Type 0} (Q : B → Session → Type 0) (p k : ℕ) (f : PlanVersionRow → Handler B) (s : Session)
    → AreDistinct same_id s.versions
    → ((v : PlanVersionRow)
        → All (IsOther (λ x. x.id) k (is_version p k) v) s.versions
        → is_version p k v ≡ true
        → Returns Q (f v s))
    → Returns Q ((get_version p k >>= f) s)
unfolding get_version
Returns-get_version Q p k f s d h =
    Returns-read Q (get_version p k) f s (Reads-get_version p k) λ v e.
      let (rest, eq) = found_version (select (is_version p k) s.versions) version_not_found v s e in
      h v (only_row (λ x. x.id) k (is_version p k) v s.versions rest d (λ x t. ground arith) eq)
        (All-found (λ _. Unit) (is_version p k) v s.versions rest (All-unit s.versions) eq).1

-- rows that are less active than others of the same product
pub rivals_weaken :
    (v w v' w' : PlanVersionRow)
    → v'.product_id ≡ v.product_id
    → w'.product_id ≡ w.product_id
    → (is_active v' ≡ true → is_active v ≡ true)
    → (is_active w' ≡ true → is_active w ≡ true)
    → are_rivals v w ≡ false
    → are_rivals v' w' ≡ false
rivals_weaken v w v' w' pv pw av aw h = elim (Bool-cases (is_active v')) [
  | inr e ↦ rw e (ground arith)
  | inl e ↦ elim (Bool-cases (is_active w')) [
    | inr e' ↦ rw e' (ground arith)
    | inl e' ↦
        let h' : (v.product_id == w.product_id && (true && true)) ≡ false = rw (av e, aw e') at h in
        rw (e, e', pv, pw) h'
  ]
]

no_rival :
    (v : PlanVersionRow) (xs : List PlanVersionRow)
    → is_active v ≡ false
    → any (are_rivals v) xs ≡ false
no_rival v [] e = refl
no_rival v (x ∷ xs) e = rw (e, no_rival v xs e) (ground arith)

no_twin :
    (v : PlanVersionRow) (xs : List PlanVersionRow)
    → All (λ x. x.id < v.id) xs
    → any (same_id v) xs ≡ false
no_twin v [] h = refl
no_twin v (x ∷ xs) h =
    let other : (v.id == x.id) ≡ false = ground (arith, h.0) in rw (other, no_twin v xs h.1)

-- a new version that is inactive
pub insert_version-Kept :
    (make : ℕ → PlanVersionRow) (s : Session)
    → IsPlanTable s
    → ((k : ℕ) → (make k).id ≡ k)
    → ((k : ℕ) → is_active (make k) ≡ false)
    → Returns Kept (insert_version make s)
insert_version-Kept make s i key off =
    let n = s.next_version in
    record {
      keys =
          AreDistinct-append same_id (λ v w. ground arith) s.versions (make n)
            (no_twin (make n) s.versions (rw (key n) i.below)) i.keys;
      below =
          All-append (λ v. v.id < n + 1) s.versions (make n)
            (All-weaken (λ v. v.id < n) (λ v. v.id < n + 1) s.versions (λ v h. omega arith) i.below)
            (rw (key n) (omega arith));
      active_once =
          AreDistinct-append are_rivals (λ v w. ground arith) s.versions (make n)
            (no_rival (make n) s.versions (off n)) i.active_once;
    }
