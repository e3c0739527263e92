-- ===== src/Plans/Writes.antt =====
-- What the requests of plan_versions_controller.py keep of the table of versions.
use yastubo_python.Prelude.{
  any, ℕ, ◌<◌, ◌≡◌, refl, ap, ◌∙◌, inl, inr, Bool, true, false, ◌&&◌, not, Option, map,
  update_where, All, ◌==◌, Bool-cases, Text, strip, member,
}
use yastubo_python.Prelude.Database.{Returns, Returns-read}
use yastubo_python.Prelude.Rows.{AreDistinct-select, AreDistinct-update, All-select, All-update}
use yastubo_python.Prelude.Changes.{update_where-map, map-map, AreDistinct-map, IsOther}
use yastubo_python.Plans.{
  inactive, PlanVersionRow, Session, get_product, is_version, is_active, integrity_error,
  data_error,
}
use yastubo_python.Plans.Versions.{
  new_version, insert_version, store, UpdateRequest, set_fields, are_keys, are_storable,
  deactivate_others, update, delete_version, destroy,
}
use yastubo_python.Plans.Clones.{cloned, clone}
use yastubo_python.Plans.Terms.{Locale, update_terms_html}
use yastubo_python.Plans.Active.{
  same_id, are_rivals, IsPlanTable, Kept, Reads-get_product, Returns-get_version,
  insert_version-Kept,
}
use yastubo_python.Plans.Activation.{
  set_row, clear_row, clear_row-rivals, set_row-rivals, Kept-raise_if,
}

-- a write that keeps the keys and the products and makes no row more active
calm-IsPlanTable :
    (q : PlanVersionRow → Bool) (f : PlanVersionRow → PlanVersionRow) (s : Session)
    → ((x : PlanVersionRow) → (f x).id ≡ x.id)
    → ((x : PlanVersionRow) → (f x).product_id ≡ x.product_id)
    → ((x : PlanVersionRow) → is_active (f x) ≡ is_active x)
    → IsPlanTable s
    → IsPlanTable (record s { versions = update_where q f s.versions })
calm-IsPlanTable q f s key product act i = record {
  keys = AreDistinct-update same_id q f s.versions (λ x y. rw (key y)) (λ x y. rw (key x)) i.keys;
  below = All-update (λ v. v.id < s.next_version) q f s.versions (λ x h. rw (key x) h) i.below;
  active_once =
      AreDistinct-update are_rivals q f s.versions (λ x y. rw (product y, act y))
        (λ x y. rw (product x, act x)) i.active_once;
}

-- only other columns are written
pub same-IsPlanTable :
    (s s' : Session)
    → s'.versions ≡ s.versions
    → s'.next_version ≡ s.next_version
    → IsPlanTable s
    → IsPlanTable s'
same-IsPlanTable s s' e n i = record {
  keys = rw e i.keys;
  below = rw (e, n) i.below;
  active_once = rw e i.active_once;
}

module _ (p k : ℕ) (r : UpdateRequest) (v : PlanVersionRow) (found : is_version p k v ≡ true)
    (s : Session) (i : IsPlanTable s)
    (only : All (IsOther (λ x. x.id) k (is_version p k) v) s.versions) where
  abbrev written : Session
  written = record s { versions = update_where (λ x. x.id == k) (set_fields r) s.versions }

  pub deactivate-IsPlanTable : IsPlanTable (deactivate_others p k written)
  unfolding deactivate_others set_fields
  deactivate-IsPlanTable = record {
    keys =
        AreDistinct-update same_id _ _ written.versions (λ x y. refl) (λ x y. refl)
          (AreDistinct-update same_id _ (set_fields r) s.versions (λ x y. refl) (λ x y. refl)
            i.keys);
    below =
        All-update (λ v. v.id < s.next_version) _ _ written.versions (λ x h. h)
          (All-update (λ v. v.id < s.next_version) _ (set_fields r) s.versions (λ x h. h) i.below);
    active_once =
        let row : PlanVersionRow → PlanVersionRow = λ x. clear_row p k (set_row k r x) in
        let e : (deactivate_others p k written).versions ≡ map row s.versions =
          update_where-map (λ x. x.product_id == p && (not (x.id == k) && is_active x))
            (λ x. record x { status = inactive }) written.versions
          ∙ (ap (map (clear_row p k)) (update_where-map _ (set_fields r) s.versions)
              ∙ map-map (set_row k r) (clear_row p k) s.versions) in
        rw e (
          AreDistinct-map (IsOther (λ x. x.id) k (is_version p k) v) same_id are_rivals row
            (clear_row-rivals p k r v found) s.versions only i.keys i.active_once);
  }

  pub written-IsPlanTable :
      (is_active (set_fields r v) && not (is_active v)) ≡ false → IsPlanTable written
  unfolding set_fields
  written-IsPlanTable off = record {
    keys =
        AreDistinct-update same_id _ (set_fields r) s.versions (λ x y. refl) (λ x y. refl) i.keys;
    below = All-update (λ v. v.id < s.next_version) _ (set_fields r) s.versions (λ x h. h) i.below;
    active_once = rw (update_where-map (λ x. x.id == k) (set_fields r) s.versions) (
        AreDistinct-map (IsOther (λ x. x.id) k (is_version p k) v) same_id are_rivals (set_row k r)
          (λ x y px py _. set_row-rivals p k r v found x y off px py) s.versions only i.keys
          i.active_once);
  }

module _ (p k : ℕ) (s : Session) (i : IsPlanTable s) where
  pub update-Kept : (r : UpdateRequest) → Returns Kept (update p k r s)
  unfolding update
  update-Kept r = Returns-get_version Kept p k _ s i.keys λ v only found.
      Kept-raise_if (not (are_storable (set_fields r v))) data_error _ s (
        Kept-raise_if (not (are_keys (set_fields r v) s)) integrity_error _ s
          (elim (Bool-cases (is_active (set_fields r v) && not (is_active v))) [
            | inl t ↦ rw t (deactivate-IsPlanTable p k r v found s i only)
            | inr t ↦ rw t (written-IsPlanTable p k r v found s i only t)
          ]))

  pub store-Kept : (name : Text) → Returns Kept (store p name s)
  unfolding store strip
  store-Kept name =
      Returns-read Kept (get_product p) _ s (Reads-get_product p)
        λ _ _. insert_version-Kept (λ j. new_version j p (strip name)) s i (λ j. refl) (λ j. refl)

  pub destroy-Kept : Returns Kept (destroy p k s)
  unfolding destroy delete_version
  destroy-Kept = Returns-get_version Kept p k _ s i.keys λ v only found.
      elim (Bool-cases (any (λ c. c.plan_version_id == v.id) s.plan_version_coverages)) [
        | inl t ↦ rw (t, delete_version) tt
        | inr t ↦ elim (Bool-cases (member v.id s.loaded_versions)) [
          | inl u ↦ rw (t, u, delete_version) tt
          | inr u ↦
              rw (t, u, delete_version)
                record {
                  keys = AreDistinct-select same_id _ s.versions i.keys;
                  below = All-select (λ v. v.id < s.next_version) _ s.versions i.below;
                  active_once = AreDistinct-select are_rivals _ s.versions i.active_once;
                }
        ]
      ]

  pub clone-Kept : (name : Text) → Returns Kept (clone p k name s)
  unfolding clone strip
  clone-Kept name = Returns-get_version Kept p k _ s i.keys λ v only found.
      same-IsPlanTable (insert_version (cloned p v (strip name)) s).1 _ refl refl
        (insert_version-Kept (cloned p v (strip name)) s i (λ j. refl) (λ j. refl))

  pub update_terms_html-Kept :
      (l : Locale) (html : Option Text) → Returns Kept (update_terms_html p k l html s)
  unfolding update_terms_html
  update_terms_html-Kept l html =
      Returns-get_version Kept p k _ s i.keys
        λ v only found. calm-IsPlanTable (λ x. x.id == k) _ s (λ x. refl) (λ x. refl) (λ x. refl) i
