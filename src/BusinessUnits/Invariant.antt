-- ===== src/BusinessUnits/Invariant.antt =====
-- Every request of business_units_controller.py on units and the table that it leaves.
use yastubo_python.Prelude.{
  ℕ, ◌<◌, ◌≡◌, ◌⊎◌, inl, inr, refl, sym, ◌∙◌, Bool, false, Option, none, some, List, [], ◌∷◌, ◌++◌,
  ◌==◌, if◌then◌else◌, Bool-cases, Option-cases, ==-true, ==-false, ==_refl, Text, arith,
  some_injective,
}
use yastubo_python.Prelude.Action.{Result, ok, err}
use yastubo_python.Prelude.Database.{get_db, or_rollback}
use yastubo_python.Units.{UnitType, BusinessUnit, find_unit}
use yastubo_python.BusinessUnits.{Session, find_parent, Handler, HttpError, validate_parent_rules}
use yastubo_python.BusinessUnits.Crud.{store, update_basic, update_status, update_branding}
use yastubo_python.BusinessUnits.Hierarchy.{parent_id_of, id_of, check_parent, change_type, move}
use yastubo_python.BusinessUnits.Forest.{Climbs, here, up, IsForest-set}
use yastubo_python.BusinessUnits.Walk.{check_parent_iff}
use yastubo_python.BusinessUnits.Steps.{
  Refuses, converted, moved, converted_type-rules, change_type-cases, move-cases,
}
use yastubo_python.BusinessUnits.Inserts.{
  stored, appended, store-cases, find_unit-old, find_unit-new, EditsRow, update_basic-cases,
  update_status-cases, update_branding-cases,
}
use yastubo_python.BusinessUnits.Requests.{
  Request, post_unit, patch_basic, patch_status, post_change_type, post_move, post_branding, handle,
  run,
}
use yastubo_python.BusinessUnits.Tree.{
  IsUnit, IsTree, parent_id_of-found, parent_id_of-cong, edited-IsTree,
}

is_fresh : (s : Session) → IsTree s → find_unit s.next_unit s.units ≡ none
is_fresh s tree = elim (Option-cases (find_unit s.next_unit s.units)) [
  | inl e ↦ e
  | inr i ↦ absurd (let h : s.next_unit < s.next_unit = tree.fresh s.next_unit i in omega arith)
]

-- a key that `find_parent` finds
find_parent-IsUnit :
    (p : Option ℕ) (units : List BusinessUnit)
    → id_of (find_parent p units) ≡ p
    → (q : ℕ) → p ≡ some q
    → IsUnit units q
find_parent-IsUnit none units e q h = absurd (cc)
find_parent-IsUnit (some p) units e q h = elim (Option-cases (find_unit p units)) [
  | inl n ↦ absurd (cc (rw n at e))
  | inr (u, n) ↦ (u, rw (some_injective (sym h)) n)
]

module _ (name : Text) (kind : UnitType) (p : Option ℕ) (s : Session) (tree : IsTree s) where
  after : List BusinessUnit
  after = s.units ++ stored name kind p s ∷ []

  appended-find :
      (k : ℕ) (u : BusinessUnit)
      → find_unit k after ≡ some u
      → (find_unit k s.units ≡ some u) ⊎ (k ≡ s.next_unit) × (u ≡ stored name kind p s)
  unfolding after
  appended-find k u e = elim (Option-cases (find_unit k s.units)) [
    | inr (v, f) ↦ inl (f ∙ (sym (find_unit-old k s.units v (stored name kind p s) f) ∙ e))
    | inl n ↦
        let e' : (if k == s.next_unit then some (stored name kind p s) else none) ≡ some u =
          sym (find_unit-new k s.units (stored name kind p s) n) ∙ e in
        elim (Bool-cases (k == s.next_unit)) [
          | inl t ↦ inr (==-true k s.next_unit t, some_injective (sym (rw t at e')))
          | inr t ↦ absurd (cc (rw t at e'))
        ]
  ]

  appended-IsUnit : (k : ℕ) → IsUnit s.units k → IsUnit after k
  unfolding after
  appended-IsUnit k (u, e) = (u, find_unit-old k s.units u (stored name kind p s) e)

  new_at : parent_id_of after s.next_unit ≡ p
  unfolding after
  new_at = parent_id_of-found after s.next_unit (stored name kind p s) (
      find_unit-new s.next_unit s.units (stored name kind p s) (is_fresh s tree)
      ∙ rw (==_refl s.next_unit))

  old_at : (k : ℕ) → ¬ (k ≡ s.next_unit) → parent_id_of after k ≡ parent_id_of s.units k
  unfolding after
  old_at k h = parent_id_of-cong after s.units k (elim (Option-cases (find_unit k s.units)) [
    | inr (u, e) ↦ find_unit-old k s.units u (stored name kind p s) e ∙ sym e
    | inl e ↦
        let other : (k == s.next_unit) ≡ false = ground arith in
        find_unit-new k s.units (stored name kind p s) e ∙ rw other (sym e)
  ])

  -- no parent leads to a key that is no row
  not_above : (q : ℕ) → IsUnit s.units q → ¬ (Climbs (parent_id_of s.units) q s.next_unit)
  not_above q i here = let h : s.next_unit < s.next_unit = tree.fresh q i in omega arith
  not_above q i (up {b} r e) =
      let h : s.next_unit < s.next_unit = tree.fresh s.next_unit (tree.linked b s.next_unit e) in
      omega arith

  pub appended-IsTree :
      id_of (find_parent p s.units) ≡ p
      → validate_parent_rules (some kind) p ≡ ok tt
      → IsTree (appended name kind p s)
  unfolding after
  appended-IsTree parent rule = record {
    fresh = λ k (u, e). elim (appended-find k u e) [
      | inl f ↦ let h : k < s.next_unit = tree.fresh k (u, f) in omega arith
      | inr (f, _) ↦ omega arith
    ];
    linked = λ a b e. appended-IsUnit b (elim (Bool-cases (a == s.next_unit)) [
      | inl t ↦
          find_parent-IsUnit p s.units parent b (sym new_at ∙ rw (==-true a s.next_unit t) at e)
      | inr t ↦ tree.linked a b (sym (old_at a (==-false a s.next_unit t)) ∙ e)
    ]);
    forest =
        IsForest-set (parent_id_of s.units) (parent_id_of after) s.next_unit p new_at old_at
          tree.forest (λ q e. not_above q (find_parent-IsUnit p s.units parent q e));
    rules =
        λ k u e. elim (appended-find k u e) [ inl f ↦ tree.rules k u f | inr (_, f) ↦ rw f rule ];
  }

or_rollback-IsTree :
    {A : Type 0} (o : Result HttpError A × Session) (s : Session)
    → IsTree s
    → IsTree o.1
    → IsTree (or_rollback o s).1
or_rollback-IsTree (ok a, s') s tree t = t
or_rollback-IsTree (err e, s') s tree t = tree

-- a request keeps the invariant when its handler does, whichever way it ends
get_db-IsTree :
    {A : Type 0} (m : Handler A) (s : Session)
    → IsTree s
    → Refuses m s ⊎ IsTree (m s).1
    → IsTree (get_db m s).1
get_db-IsTree m s tree (inl (e, p)) = rw p tree
get_db-IsTree m s tree (inr t) = or_rollback-IsTree (m s) s tree t

change_type-IsTree :
    (k : ℕ) (t : UnitType) (d : Bool) (s : Session)
    → IsTree s
    → Refuses (change_type k t d) s ⊎ IsTree (change_type k t d s).1
change_type-IsTree k t d s tree = elim (change_type-cases k t d s) [
  | inl r ↦ inl r
  | inr (u, to_type, found, c, e) ↦ inr (
      rw e (
        edited-IsTree s k (converted to_type) u tree found (λ v. refl)
          (converted_type-rules u.type t to_type d u.parent_id c) (λ p n. absurd (cc))))
]

-- what the checks of `move` say of the new parent
parent_ok :
    (units : List BusinessUnit) (k : ℕ) (p : Option ℕ)
    → id_of (find_parent p units) ≡ p
    → check_parent units k (find_parent p units) ≡ ok tt
    → (q : ℕ) → p ≡ some q
    → IsUnit units q × (¬ (Climbs (parent_id_of units) q k))
parent_ok units k none e c q h = absurd (cc)
parent_ok units k (some r) e c q h =
    let (v, f) = find_parent-IsUnit (some r) units e q h in
    let same : r ≡ q = some_injective h in
    let c' : check_parent units k (some v) ≡ ok tt = rw (same, f) at c in
    elim (check_parent_iff units k q v f) [
      | inl (_, n) ↦ ((v, f), n)
      | inr (inl (x, _)) ↦ absurd (cc)
      | inr (inr (x, _, _)) ↦ absurd (cc)
    ]

move-IsTree :
    (k : ℕ) (p : Option ℕ) (s : Session) → IsTree s → Refuses (move k p) s ⊎ IsTree (move k p s).1
move-IsTree k p s tree = elim (move-cases k p s) [
  | inl r ↦ inl r
  | inr (u, found, key, v, c, e) ↦
      inr (
        rw e (edited-IsTree s k (moved p) u tree found (λ w. refl) v (parent_ok s.units k p key c)))
]

store-IsTree :
    (name : Text) (kind : UnitType) (p : Option ℕ) (s : Session)
    → IsTree s
    → Refuses (store name kind p) s ⊎ IsTree (store name kind p s).1
store-IsTree name kind p s tree = elim (store-cases name kind p s (is_fresh s tree)) [
  | inl r ↦ inl r
  | inr (key, v, e) ↦ inr (rw e (appended-IsTree name kind p s tree key v))
]

row-IsTree :
    {A : Type 0} (m : Handler A) (k : ℕ) (s : Session)
    → IsTree s
    → EditsRow m k s
    → IsTree (get_db m s).1
row-IsTree m k s tree (inl r) = get_db-IsTree m s tree (inl r)
row-IsTree m k s tree (inr (f, u, found, keep, e)) =
    let above : parent_id_of s.units k ≡ u.parent_id = parent_id_of-found s.units k u found in
    get_db-IsTree m s tree (
      inr (
        rw e (
          edited-IsTree s k f u tree found keep.id
            (rw (keep.type u, keep.parent_id u) (tree.rules k u found))
            (λ p n.
              let old : parent_id_of s.units k ≡ some p = above ∙ (sym (keep.parent_id u) ∙ n) in
              (tree.linked k p old, tree.forest k p old)))))

-- If the table of units is a tree that follows the rules of parents, so it is after any request that
-- writes units, whether the request is answered or refused.
pub handle-IsTree : (r : Request) (s : Session) → IsTree s → IsTree (handle r s)
unfolding handle
handle-IsTree (post_unit name kind p) s t =
    get_db-IsTree (store name kind p) s t (store-IsTree name kind p s t)
handle-IsTree (patch_basic k name) s t =
    row-IsTree (update_basic k name) k s t (update_basic-cases k name s)
handle-IsTree (patch_status k status) s t =
    row-IsTree (update_status k status) k s t (update_status-cases k status s)
handle-IsTree (post_change_type k kind d) s t =
    get_db-IsTree (change_type k kind d) s t (change_type-IsTree k kind d s t)
handle-IsTree (post_move k p) s t = get_db-IsTree (move k p) s t (move-IsTree k p s t)
handle-IsTree (post_branding k b) s t =
    row-IsTree (update_branding k b) k s t (update_branding-cases k b s)

-- If the table of units is a tree that follows the rules of parents, so it is after any list of
-- requests that write units: new keys are new, parents are rows, nobody is above a parent of theirs,
-- consolidators and freelances have no parent and counters have one.
pub run-IsTree : (rs : List Request) (s : Session) → IsTree s → IsTree (run rs s)
unfolding run
run-IsTree [] s t = t
run-IsTree (r ∷ rs) s t = run-IsTree rs (handle r s) (handle-IsTree r s t)
