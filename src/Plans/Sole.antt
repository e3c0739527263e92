-- ===== src/Plans/Sole.antt =====
-- The versions of a product after an update of plan_versions_controller.py that activates one.
use yastubo_python.Prelude.{
  ℕ, ◌≡◌, refl, ap, ◌∙◌, inl, inr, Bool, true, false, ◌&&◌, not, [], ◌∷◌, map, select, update_where,
  ◌==◌, Bool-cases, arith,
}
use yastubo_python.Prelude.Action.{ok}
use yastubo_python.Prelude.Rows.{AreDistinct, All-found, All-unit}
use yastubo_python.Prelude.Changes.{
  only_row, update_where-map, map-map, IsOther, select-map, select-map_same,
}
use yastubo_python.Plans.{
  inactive, PlanVersionRow, Session, is_version, get_version, is_active, build_version_out,
}
use yastubo_python.Plans.Versions.{
  UpdateRequest, set_fields, are_keys, are_storable, deactivate_others, update,
}
use yastubo_python.Plans.Active.{same_id}
use yastubo_python.Plans.Activation.{set_row, clear_row}

module _ (p k : ℕ) where
  clear_row_own : (x : PlanVersionRow) → (x.id == k) ≡ true → clear_row p k x ≡ x
  clear_row_own x e = elim (Bool-cases (x.product_id == p)) [
    | inl t ↦ rw (t, e) refl
    | inr t ↦ rw t refl
  ]

  clear_row_apart : (x : PlanVersionRow) → (x.product_id == p) ≡ false → clear_row p k x ≡ x
  clear_row_apart x e = rw e refl

  clear_row-product : (x : PlanVersionRow) → (clear_row p k x).product_id ≡ x.product_id
  clear_row-product x = elim (Bool-cases (x.product_id == p && (not (x.id == k) && is_active x))) [
    | inl t ↦ rw t refl
    | inr t ↦ rw t refl
  ]

  clear_row_off :
      (x : PlanVersionRow)
      → (x.id == k) ≡ false
      → ((clear_row p k x).product_id == p && is_active (clear_row p k x)) ≡ false
  clear_row_off x e = elim (Bool-cases (x.product_id == p)) [
    | inr t ↦ rw t (rw t refl)
    | inl t ↦ elim (Bool-cases (is_active x)) [
      | inl a ↦ rw (t, e, a) (rw t refl)
      | inr a ↦ rw (t, e, a) (rw (t, a) refl)
    ]
  ]

module _ (p k : ℕ) (r : UpdateRequest) where
  -- the row that an activating update leaves of a row
  abbrev after_update : PlanVersionRow → PlanVersionRow
  after_update x = clear_row p k (set_row k r x)

  after_update_own : (x : PlanVersionRow) → (x.id == k) ≡ true → after_update x ≡ set_fields r x
  unfolding set_fields
  after_update_own x e =
      let set : set_row k r x ≡ set_fields r x = rw e refl in
      ap (clear_row p k) set ∙ clear_row_own p k (set_fields r x) e

  after_update_other : (x : PlanVersionRow) → (x.id == k) ≡ false → after_update x ≡ clear_row p k x
  after_update_other x e = let set : set_row k r x ≡ x = rw e refl in ap (clear_row p k) set

  after_update-product : (x : PlanVersionRow) → (after_update x).product_id ≡ x.product_id
  unfolding set_fields
  after_update-product x =
      clear_row-product p k (set_row k r x)
      ∙ elim (Bool-cases (x.id == k)) [ inl t ↦ rw t refl | inr t ↦ rw t refl ]

  updated :
      (s : Session)
      → (deactivate_others p k (record s {
        versions = update_where (λ x. x.id == k) (set_fields r) s.versions;
      })).versions
        ≡ map after_update s.versions
  unfolding deactivate_others
  updated s =
      update_where-map (λ x. x.product_id == p && (not (x.id == k) && is_active x))
        (λ x. record x { status = inactive }) _
      ∙ (ap (map (clear_row p k)) (update_where-map (λ x. x.id == k) (set_fields r) s.versions)
          ∙ map-map (set_row k r) (clear_row p k) s.versions)

  module _ (v : PlanVersionRow) (found : is_version p k v ≡ true)
      (on : is_active (set_fields r v) ≡ true) where
    abbrev Other : PlanVersionRow → Type 0
    Other = IsOther (λ x. x.id) k (is_version p k) v

    sole :
        (x : PlanVersionRow)
        → Other x
        → ((after_update x).product_id == p && is_active (after_update x)) ≡ is_version p k x
    sole x (inl e) = rw (after_update_other x e) (clear_row_off p k x e ∙ rw e refl)
    sole x (inr e) =
        let own : (v.id == k) ≡ true = ground (arith, found) in
        let product : (v.product_id == p) ≡ true = ground (arith, found) in
        rw e (
          rw (after_update-product v, product)
            (ap is_active (after_update_own v own) ∙ (on ∙ rw own refl)))

    apart : (x : PlanVersionRow) → Other x → not (x.product_id == p) ≡ true → after_update x ≡ x
    apart x (inl e) h = after_update_other x e ∙ clear_row_apart p k x (ground (arith, h))
    apart x (inr e) h =
        let product : (v.product_id == p) ≡ true = ground (arith, found) in
        absurd (cc (rw (e, product) at h))

-- If exactly one row is found for the product and the version, the keys of the versions stand once, the
-- new values fit their columns and name rows that are there, and the version was not active and is to be
-- active: then `update` is answered with the written row, that row is afterwards the only active version
-- of the product, and the versions of other products are as before.
pub update_activation :
    (p k : ℕ) (r : UpdateRequest) (s : Session) (v : PlanVersionRow)
    → select (is_version p k) s.versions ≡ v ∷ []
    → AreDistinct same_id s.versions
    → are_storable (set_fields r v) ≡ true
    → are_keys (set_fields r v) s ≡ true
    → is_active v ≡ false
    → is_active (set_fields r v) ≡ true
    → let (res, s') = update p k r s in
      let is_other : PlanVersionRow → Bool = λ x. not (x.product_id == p) in
      (res ≡ ok (build_version_out (set_fields r v)))
      × (select (λ x. x.product_id == p && is_active x) s'.versions ≡ set_fields r v ∷ [])
      × (select is_other s'.versions ≡ select is_other s.versions)
unfolding update get_version build_version_out
update_activation p k r s v one d fits known off on =
    let found =
      (All-found (λ _. Unit) (is_version p k) v s.versions [] (All-unit s.versions) one).1 in
    let own : (v.id == k) ≡ true = ground (arith, found) in
    let others =
      only_row (λ x. x.id) k (is_version p k) v s.versions [] d (λ x t. ground arith) one in
    let g = after_update p k r in
    rw (one, get_version)
      (rw (fits, known, off, on)
        (
          refl,
          rw (updated p k r s) (
              select-map _ _ (is_version p k) g s.versions others (sole p k r v found on)
              ∙ rw one (ap (λ x. x ∷ []) (after_update_own p k r v own))),
          rw (updated p k r s) (
              select-map_same _ _ _ g s.versions others
                (λ x _. ap (λ n. not (n == p)) (after_update-product p k r x))
                (apart p k r v found on)),
        ))
