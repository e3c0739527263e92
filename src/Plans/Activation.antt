-- ===== src/Plans/Activation.antt =====
-- update and the other writes of plan_versions_controller.py, and the active versions of a product.
use yastubo_python.Prelude.{
  ℕ, ◌≡◌, refl, inl, inr, Bool, true, false, ◌&&◌, not, ◌==◌, Bool-cases, ==-true, arith,
  if◌then◌else◌,
}
use yastubo_python.Prelude.Action.{raise_if, ◌>>=◌}
use yastubo_python.Prelude.Database.{Returns}
use yastubo_python.Prelude.Changes.{IsOther}
use yastubo_python.Plans.{
  inactive, PlanVersionRow, Session, HttpError, Handler, is_version, is_active,
}
use yastubo_python.Plans.Versions.{UpdateRequest, set_fields}
use yastubo_python.Plans.Active.{same_id, are_rivals, Kept, rivals_weaken}

pub Kept-raise_if :
    {A : Type 0} (b : Bool) (e : HttpError) (f : Unit {0} → Handler A) (s : Session)
    → Returns Kept (f tt s)
    → Returns Kept ((raise_if b e >>= f) s)
Kept-raise_if true e f s h = tt
Kept-raise_if false e f s h = h

-- the two writes of an update as a function of a row
abbrev pub set_row : ℕ → UpdateRequest → PlanVersionRow → PlanVersionRow
set_row k r x = if x.id == k then set_fields r x else x

abbrev pub clear_row : ℕ → ℕ → PlanVersionRow → PlanVersionRow
clear_row p k x =
    if x.product_id == p && (not (x.id == k) && is_active x)
    then record x { status = inactive }
    else x

module _ (p k : ℕ) (r : UpdateRequest) (v : PlanVersionRow) (found : is_version p k v ≡ true) where
  abbrev P : PlanVersionRow → Type 0
  P = IsOther (λ x. x.id) k (is_version p k) v

  set_row-product : (x : PlanVersionRow) → (set_row k r x).product_id ≡ x.product_id
  unfolding set_fields
  set_row-product x = elim (Bool-cases (x.id == k)) [ inl t ↦ rw t | inr t ↦ rw t ]

  -- without an activation no row becomes active
  set_row-active :
      (x : PlanVersionRow)
      → (is_active (set_fields r v) && not (is_active v)) ≡ false
      → P x
      → is_active (set_row k r x) ≡ true
      → is_active x ≡ true
  set_row-active x h (inl t) a = rw t at a
  set_row-active x h (inr e) a =
      let a1 : is_active (set_row k r v) ≡ true = rw e at a in
      let own : (v.id == k) ≡ true = ground (arith, found) in
      let a2 : is_active (set_fields r v) ≡ true = rw own at a1 in
      elim (Bool-cases (is_active v)) [ inl b ↦ rw e b | inr b ↦ absurd (cc (rw (a2, b) at h)) ]

  clear_row-other :
      (x : PlanVersionRow)
      → (x.id == k) ≡ false
      → ((clear_row p k (set_row k r x)).product_id ≡ x.product_id)
        × (is_active (clear_row p k (set_row k r x)) ≡ true → is_active x ≡ true)
        × (is_active (clear_row p k (set_row k r x)) ≡ true → (x.product_id == p) ≡ false)
  clear_row-other x t = elim (Bool-cases (x.product_id == p)) [
    | inr u ↦ rw (t, u) (refl, λ h. h, λ h. refl)
    | inl u ↦ elim (Bool-cases (is_active x)) [
      | inl a ↦ rw (t, u, a) (rw t (refl, λ h. absurd (cc), λ h. absurd (cc)))
      | inr a ↦ rw (t, u, a) (rw t (refl, λ h. absurd (cc), λ h. absurd (cc)))
    ]
  ]

  clear_row-own :
      (x : PlanVersionRow)
      → (x.id == k) ≡ true
      → P x
      → (clear_row p k (set_row k r x)).product_id ≡ p
  unfolding set_fields
  clear_row-own x t (inl f) = absurd (cc (rw t at f))
  clear_row-own x t (inr e) =
      let same : (v.product_id == p) ≡ true = ground (arith, found) in
      let same' : (x.product_id == p) ≡ true = rw e same in
      rw (t, same') (rw t (==-true x.product_id p same'))

  -- After an activation no two rows are rivals.
  pub clear_row-rivals :
      (x y : PlanVersionRow)
      → P x
      → P y
      → same_id x y ≡ false
      → are_rivals x y ≡ false
      → are_rivals (clear_row p k (set_row k r x)) (clear_row p k (set_row k r y)) ≡ false
  clear_row-rivals x y px py s h = elim (Bool-cases (x.id == k)) [
    | inl t ↦ elim (Bool-cases (y.id == k)) [
      | inl u ↦ absurd (ground arith)
      | inr u ↦
          let (q, _, off) = clear_row-other y u in
          elim (Bool-cases (is_active (clear_row p k (set_row k r y)))) [
            | inr a ↦ rw a (ground arith)
            | inl a ↦
                let apart : (p == y.product_id) ≡ false = ground (arith, off a) in
                rw (clear_row-own x t px, q, apart)
          ]
    ]
    | inr t ↦ elim (Bool-cases (y.id == k)) [
      | inl u ↦
          let (q, _, off) = clear_row-other x t in
          elim (Bool-cases (is_active (clear_row p k (set_row k r x)))) [
            | inr a ↦ rw a (ground arith)
            | inl a ↦
                let apart : (x.product_id == p) ≡ false = off a in
                rw (clear_row-own y u py, q, apart)
          ]
      | inr u ↦
          let (q, a, _) = clear_row-other x t in
          let (q', a', _) = clear_row-other y u in
          rivals_weaken x y (clear_row p k (set_row k r x)) (clear_row p k (set_row k r y)) q q' a
            a' h
    ]
  ]

  pub set_row-rivals :
      (x y : PlanVersionRow)
      → (is_active (set_fields r v) && not (is_active v)) ≡ false
      → P x
      → P y
      → are_rivals x y ≡ false
      → are_rivals (set_row k r x) (set_row k r y) ≡ false
  set_row-rivals x y h px py e =
      rivals_weaken x y (set_row k r x) (set_row k r y) (set_row-product x) (set_row-product y)
        (set_row-active x h px) (set_row-active y h py) e
