-- ===== src/Permissions/Resolver/Cache.antt =====
-- for_unit with the caches of the resolver and without them.
use yastubo_python.Prelude.{
  ℕ, ◌≡◌, refl, sym, ap, ◌∙◌, ◌&&◌, inl, inr, Option, none, some, List, [], ◌∷◌, arith, Text, ◌==◌,
  All, Bool-cases, ==-true, ==_refl,
}
use yastubo_python.Units.{BusinessUnit, find_unit}
use yastubo_python.Permissions.Levels.{Levels, build_global_permissions}
use yastubo_python.Permissions.Resolver.{
  Database, User, Resolver, levels_of_chain, levels_of_unit, load_ancestor_chain, global_of,
  cached_levels, load_if, load_user, levels_or_store, permission_levels_for_unit, with_globals,
  abilities_of, for_unit,
}
use yastubo_python.Permissions.Resolver.Chain.{load_ancestor_chain_total}

abbrev or_levels : Levels → Option Levels → Levels
or_levels l none = l
or_levels l (some m) = m

-- a database, and the permissions that each user's cache holds
module _ (db : Database) (granted : ℕ → List Text) where
  -- the levels of a user without caches
  abbrev pub globals_of : ℕ → Levels
  globals_of user_id = build_global_permissions (granted user_id)

  abbrev pub fresh_levels : ℕ → BusinessUnit → Option Levels
  fresh_levels user_id unit = levels_of_unit db user_id (globals_of user_id) unit

  -- each entry of the first cache is what would be built
  abbrev pub AreGlobals : List (ℕ × Levels) → Type 0
  AreGlobals entries = All (λ e. e.1 ≡ globals_of e.0) entries

  abbrev pub IsFreshAt : ℕ → Levels → Option BusinessUnit → Type 0
  IsFreshAt user_id levels none = Unit
  IsFreshAt user_id levels (some u) = fresh_levels user_id u ≡ some levels

  -- each entry of the second cache is what would be computed for the unit with its id
  abbrev pub AreFresh : List ((ℕ × ℕ) × Levels) → Type 0
  AreFresh entries = All (λ e. IsFreshAt e.0.0 e.1 (find_unit e.0.1 db.units)) entries

  abbrev pub IsCoherent : Resolver → Type 0
  IsCoherent r = AreGlobals r.global_permissions × AreFresh r.unit_permissions_cache

  global_of-AreGlobals :
      (k : ℕ) (entries : List (ℕ × Levels)) (levels : Levels)
      → AreGlobals entries
      → global_of k entries ≡ some levels
      → levels ≡ globals_of k
  unfolding global_of
  global_of-AreGlobals k [] levels c e = ground arith
  global_of-AreGlobals k ((j, l) ∷ entries) levels (h, c) e = elim (Bool-cases (j == k)) [
    | inl t ↦
        let same : some l ≡ some levels = rw t at e in
        sym (ap (or_levels l) same) ∙ h ∙ ap globals_of (==-true j k t)
    | inr t ↦ global_of-AreGlobals k entries levels c (rw t at e)
  ]

  cached_levels-AreFresh :
      (k v : ℕ) (entries : List ((ℕ × ℕ) × Levels)) (levels : Levels) (u : BusinessUnit)
      → AreFresh entries
      → find_unit v db.units ≡ some u
      → cached_levels k v entries ≡ some levels
      → fresh_levels k u ≡ some levels
  unfolding cached_levels
  cached_levels-AreFresh k v [] levels u c i e = ground arith
  cached_levels-AreFresh k v (((j, w), l) ∷ entries) levels u (h, c) i e =
      elim (Bool-cases (j == k && w == v)) [
        | inl t ↦
            let same : some l ≡ some levels = rw t at e in
            let (p, q) : (j ≡ k) × (w ≡ v) = ground arith in
            rw i at rw q at rw p at rw (ap (or_levels l) same) at h
        | inr t ↦ cached_levels-AreFresh k v entries levels u c i (rw t at e)
      ]

  load_if-IsCoherent :
      (user : User) (o : Option Levels) (r : Resolver)
      → IsCoherent r
      → user.permissions_cache ≡ granted user.id
      → IsCoherent (load_if user o r)
  load_if-IsCoherent user none r (g, c) e = ((ap build_global_permissions e, g), c)
  load_if-IsCoherent user (some levels) r (g, c) e = (g, c)

  load_if-global_of :
      (user : User) (o : Option Levels) (r : Resolver)
      → global_of user.id r.global_permissions ≡ o
      → (levels : Levels) × (global_of user.id (load_if user o r).global_permissions ≡ some levels)
  unfolding global_of
  load_if-global_of user none r e =
      (build_global_permissions user.permissions_cache, rw (==_refl user.id) refl)
  load_if-global_of user (some levels) r e = (levels, e)

  -- the levels are those of the chain, and the resolver is coherent
  abbrev pub IsAnswer : ℕ → BusinessUnit → List BusinessUnit → Option Levels × Resolver → Type 0
  IsAnswer user_id unit chain res =
      (res.0 ≡ some (levels_of_chain db user_id (globals_of user_id) unit chain)) × IsCoherent res.1

  module _ (user : User) (unit : BusinessUnit) (chain : List BusinessUnit) where
    fresh_row :
        load_ancestor_chain db.units unit ≡ some chain
        → fresh_levels user.id unit
          ≡ some (levels_of_chain db user.id (globals_of user.id) unit chain)
    fresh_row l = rw l refl

    levels_or_store-IsAnswer :
        (o : Option Levels) (r : Resolver)
        → load_ancestor_chain db.units unit ≡ some chain
        → find_unit unit.id db.units ≡ some unit
        → IsCoherent r
        → cached_levels user.id unit.id r.unit_permissions_cache ≡ o
        → IsAnswer user.id unit chain (levels_or_store db user (globals_of user.id) unit o r)
    levels_or_store-IsAnswer none r l i (g, c) e = rw l (refl, (g, (rw i (fresh_row l), c)))
    levels_or_store-IsAnswer (some levels) r l i (g, c) e = (
      sym (cached_levels-AreFresh user.id unit.id r.unit_permissions_cache levels unit c i e)
          ∙ fresh_row l,
      (g, c),
    )

    with_globals-IsAnswer :
        (o : Option Levels) (levels : Levels) (r : Resolver)
        → load_ancestor_chain db.units unit ≡ some chain
        → find_unit unit.id db.units ≡ some unit
        → IsCoherent r
        → global_of user.id r.global_permissions ≡ some levels
        → o ≡ some levels
        → IsAnswer user.id unit chain (with_globals db user (some unit) o r)
    unfolding permission_levels_for_unit cached_levels
    with_globals-IsAnswer none levels r l i c e p = ground (arith, p)
    with_globals-IsAnswer (some m) levels r l i (g, c) e p =
        let same : m ≡ globals_of user.id =
          ap (or_levels m) p ∙ global_of-AreGlobals user.id r.global_permissions levels g e in
        rw same (
          levels_or_store-IsAnswer (cached_levels user.id unit.id r.unit_permissions_cache) r l i
            (g, c) refl)

  -- From coherent caches, for a user whose permissions are loaded and a unit of the database, the
  -- abilities hold exactly the levels that the chain of ancestors gives without any cache, the chain
  -- being found; and the caches stay coherent.
  pub for_unit-IsAnswer :
      (user : User) (unit : BusinessUnit) (r : Resolver)
      → IsCoherent r
      → user.permissions_cache ≡ granted user.id
      → find_unit unit.id db.units ≡ some unit
      → (chain : List BusinessUnit) × (load_ancestor_chain db.units unit ≡ some chain)
        × ((for_unit db user (some unit) r).0
            ≡ abilities_of (some (levels_of_chain db user.id (globals_of user.id) unit chain)))
        × IsCoherent (for_unit db user (some unit) r).1
  unfolding for_unit load_user
  for_unit-IsAnswer user unit r c p i =
      let (chain, l) = load_ancestor_chain_total db.units unit in
      let (levels, e) = load_if-global_of user (global_of user.id r.global_permissions) r refl in
      let loaded = load_if-IsCoherent user (global_of user.id r.global_permissions) r c p in
      let (a, d) = with_globals-IsAnswer user unit chain _ levels _ l i loaded e e in
      (chain, l, ap abilities_of a, d)
