-- ===== src/Plans/Named.antt =====
-- The handlers of plan_versions_controller.py on versions keep the versions that coverages name.
use yastubo_python.Prelude.{
  ℕ, ◌≡◌, refl, ◌∙◌, inl, inr, Bool, true, false, ◌&&◌, not, Option, List, [], ◌∷◌, ◌++◌, any,
  select, update_where, All, ◌==◌, Bool-cases, arith, Text, strip, member,
}
use yastubo_python.Prelude.Database.{Returns, Returns-read}
use yastubo_python.Prelude.Rows.{any-update}
use yastubo_python.Plans.{
  PlanVersionRow, PlanVersionCoverage, Session, get_product, get_version, is_active,
  integrity_error, data_error,
}
use yastubo_python.Plans.Versions.{
  store, UpdateRequest, set_fields, are_storable, are_keys, update, deactivate_others,
  delete_version, destroy,
}
use yastubo_python.Plans.Clones.{clone}
use yastubo_python.Plans.Terms.{Locale, update_terms_html}
use yastubo_python.Plans.Active.{Reads-get_product, Reads-get_version}
use yastubo_python.Plans.Covered.{IsCoverTable, Covers, Covers-raise_if, is_key_of}

module _ {A : Type 0} (p : A → Bool) where
  any-append : (xs : List A) (x : A) → any p xs ≡ true → any p (xs ++ x ∷ []) ≡ true
  any-append [] x h = absurd (cc)
  any-append (y ∷ ys) x h = elim (Bool-cases (p y)) [
    | inl t ↦ rw t refl
    | inr t ↦ rw t (any-append ys x (rw t at h))
  ]

-- rows that are deleted do not have the property
any-select_keep :
    (p q : PlanVersionRow → Bool) (xs : List PlanVersionRow)
    → ((x : PlanVersionRow) → q x ≡ false → p x ≡ false)
    → any p (select q xs) ≡ any p xs
any-select_keep p q [] h = refl
any-select_keep p q (x ∷ xs) h = elim (Bool-cases (q x)) [
  | inl t ↦ rw (t, any-select_keep p q xs h)
  | inr t ↦ rw (t, h x t) (any-select_keep p q xs h)
]

-- the rows of coverages are not written, and versions that are named stay
module _ (s s' : Session) (same : s'.plan_version_coverages ≡ s.plan_version_coverages) where
  named_still :
      (xs : List PlanVersionCoverage)
      → ((k : ℕ) → any (is_key_of k) s.versions ≡ true → any (is_key_of k) s'.versions ≡ true)
      → All (λ x. any (is_key_of x.plan_version_id) s.versions ≡ true) xs
      → All (λ x. any (is_key_of x.plan_version_id) s'.versions ≡ true) xs
  named_still [] h i = tt
  named_still (x ∷ xs) h i = (h x.plan_version_id i.0, named_still xs h i.1)

  pub stay-IsCoverTable :
      ((k : ℕ) → any (is_key_of k) s.versions ≡ true → any (is_key_of k) s'.versions ≡ true)
      → IsCoverTable s
      → IsCoverTable s'
  stay-IsCoverTable h i = record {
    pairs = rw same i.pairs;
    named = rw same (named_still s.plan_version_coverages h i.named);
  }

-- the coverages name other versions than the one that is deleted
named_after :
    (k : ℕ) (vs : List PlanVersionRow) (xs : List PlanVersionCoverage)
    → any (λ c. c.plan_version_id == k) xs ≡ false
    → All (λ x. any (is_key_of x.plan_version_id) vs ≡ true) xs
    → All (λ x. any (is_key_of x.plan_version_id) (select (λ v. not (v.id == k)) vs) ≡ true) xs
named_after k vs [] h i = tt
named_after k vs (x ∷ xs) h i = elim (Bool-cases (x.plan_version_id == k)) [
  | inl t ↦ absurd (cc (rw t at h))
  | inr t ↦ (
    any-select_keep (is_key_of x.plan_version_id) (λ v. not (v.id == k)) vs
          (λ v e. ground (arith, t, e))
        ∙ i.0,
    named_after k vs xs (rw t at h) i.1,
  )
]

module _ (p k : ℕ) (s : Session) (i : IsCoverTable s) where
  pub update-Covers : (r : UpdateRequest) → Returns Covers (update p k r s)
  unfolding update set_fields deactivate_others
  update-Covers r = Returns-read Covers (get_version p k) _ s (Reads-get_version p k) λ v _.
      Covers-raise_if (not (are_storable (set_fields r v))) data_error _ s (
        Covers-raise_if (not (are_keys (set_fields r v) s)) integrity_error _ s (
          let written : (j : ℕ)
              → any (is_key_of j) (update_where (λ x. x.id == k) (set_fields r) s.versions)
                ≡ any (is_key_of j) s.versions =
            λ j. any-update (is_key_of j) _ (set_fields r) s.versions (λ x. refl) in
          elim (Bool-cases (is_active (set_fields r v) && not (is_active v))) [
            | inl t ↦ rw t (
                stay-IsCoverTable s _ refl
                  (λ j h.
                    any-update (is_key_of j) _ _
                      (update_where (λ x. x.id == k) (set_fields r) s.versions) (λ x. refl)
                    ∙ (written j ∙ h))
                  i)
            | inr t ↦ rw t (stay-IsCoverTable s _ refl (λ j h. written j ∙ h) i)
          ]))

  pub store-Covers : (name : Text) → Returns Covers (store p name s)
  unfolding store strip
  store-Covers name =
      Returns-read Covers (get_product p) _ s (Reads-get_product p)
        λ _ _. stay-IsCoverTable s _ refl (λ j h. any-append (is_key_of j) s.versions _ h) i

  pub clone-Covers : (name : Text) → Returns Covers (clone p k name s)
  unfolding clone strip
  clone-Covers name =
      Returns-read Covers (get_version p k) _ s (Reads-get_version p k)
        λ v _. stay-IsCoverTable s _ refl (λ j h. any-append (is_key_of j) s.versions _ h) i

  pub update_terms_html-Covers :
      (l : Locale) (html : Option Text) → Returns Covers (update_terms_html p k l html s)
  unfolding update_terms_html
  update_terms_html-Covers l html =
      Returns-read Covers (get_version p k) _ s (Reads-get_version p k) λ v _.
        stay-IsCoverTable s _ refl
          (λ j h. any-update (is_key_of j) (λ x. x.id == k) _ s.versions (λ x. refl) ∙ h) i

  -- a version that coverages name is not deleted
  pub destroy-Covers : Returns Covers (destroy p k s)
  unfolding destroy delete_version
  destroy-Covers = Returns-read Covers (get_version p k) _ s (Reads-get_version p k) λ v _.
      elim (Bool-cases (any (λ c. c.plan_version_id == v.id) s.plan_version_coverages)) [
        | inl t ↦ rw (t, delete_version) tt
        | inr t ↦ elim (Bool-cases (member v.id s.loaded_versions)) [
          | inl u ↦ rw (t, u, delete_version) tt
          | inr u ↦
              rw (t, u, delete_version)
                record {
                  pairs = i.pairs;
                  named = named_after v.id s.versions s.plan_version_coverages t i.named;
                }
        ]
      ]
