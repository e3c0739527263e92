-- ===== src/Permissions/Levels/Maximum.antt =====
-- The level that the loops of business_unit_permission_resolver.py leave for one permission.
use Prim.Native.Nat.{max}
use yastubo_python.Prelude.{
  ℕ, ◌≡◌, refl, ap, Bool, true, false, ◌&&◌, List, [], ◌∷◌, any, ltb, if◌then◌else◌, Text, text_eq,
  text_eq-true, Bool-cases, inl, inr, arith,
}
use yastubo_python.Permissions.Levels.{
  Levels, has_name, set_level, raise_level, raise_all, Resolved, manage_children, inherit_from,
  unit_levels, level_local, level_inherited, level_none,
}

-- a level that is reached if a test holds
abbrev pub level_if : Bool → ℕ → ℕ
level_if b level = if b then level else level_none

-- the level that one of two dictionaries holds
if_at : (b : Bool) (f g : Levels) (k : Text) → (if b then f else g) k ≡ (if b then f k else g k)
if_at true f g k = refl
if_at false f g k = refl

raise_level-max :
    (level : ℕ) (name k : Text) (levels : Levels)
    → raise_level level name levels k ≡ max (levels k) (level_if (text_eq k name) level)
raise_level-max level name k levels =
    let at = if_at (ltb (levels name) level) (set_level name level levels) levels k in
    elim (Bool-cases (text_eq k name)) [
      | inl e ↦ let same = text_eq-true k name e in ground (arith, at, e, ap levels same)
      | inr e ↦ ground (arith, at, e)
    ]

raise_all-max :
    (level : ℕ) (names : List Text) (k : Text) (levels : Levels)
    → raise_all level names levels k ≡ max (levels k) (level_if (has_name k names) level)
unfolding raise_all
raise_all-max level [] k levels = omega arith
raise_all-max level (n ∷ names) k levels = ground (
  arith,
  raise_all-max level names k (raise_level level n levels),
  raise_level-max level n k levels,
)

-- an ancestor that manages its children effectively, and grants the permission
abbrev pub inherits : Text → List Resolved → Bool
inherits k above =
    any (λ a. ltb level_none (a.levels manage_children) && has_name k a.local_names) above

inherit_from-max :
    (above : List Resolved) (k : Text) (levels : Levels)
    → inherit_from above levels k ≡ max (levels k) (level_if (inherits k above) level_inherited)
unfolding inherit_from
inherit_from-max [] k levels = omega arith
inherit_from-max (a ∷ above) k levels =
    let b = ltb level_none (a.levels manage_children) in
    let raised = raise_all level_inherited a.local_names levels in
    let at = if_at b raised levels k in
    let rest = inherit_from-max above k (if b then raised else levels) in
    let here = raise_all-max level_inherited a.local_names k levels in
    ground (arith, at, rest, here)

-- For every permission the level of a unit is the greatest of the global level, the inherited level
-- where an ancestor manages its children and grants the permission, and the local level where the
-- user's role in the unit grants it.
pub unit_levels-max :
    (globals : Levels) (above : List Resolved) (names : List Text) (k : Text)
    → unit_levels globals above names k
      ≡ max (globals k) (
          max
            (level_if (inherits k above) level_inherited)
            (level_if (has_name k names) level_local))
unfolding unit_levels
unit_levels-max globals above names k = omega (
  arith,
  inherit_from-max above k (raise_all level_local names globals),
  raise_all-max level_local names k globals,
)
