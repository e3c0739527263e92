-- ===== src/Permissions/Abilities/Roles.antt =====
-- The queries of business_unit_abilities.py and the cache that they share.
use yastubo_python.Prelude.{
  ℕ, List, map, ◌≡◌, refl, ap, sym, ◌∙◌, Bool, true, false, ◌&&◌, ◌||◌, Option, none, some, [], ◌∷◌,
  leb, if◌then◌else◌, Text, codes, text_eq, text_eq-true, Dict, lookup, insert, All, Bool-cases,
  inl, inr, arith,
}
use yastubo_python.Permissions.Levels.{Levels, level_local, level_inherited}
use yastubo_python.Permissions.Abilities.{
  ability_permission_map, to_dict_from, to_dict, Abilities, compute_ability, Query, cached_or, can,
  if_query, answer, can_manage_roles, manageable_role_min_level, reaches_min_level,
  can_manage_role_level,
}

-- every cached answer is the one that would be computed
abbrev pub IsCached : Levels → Dict Bool → Type 0
IsCached levels cache = All (λ entry. entry.1 ≡ compute_ability levels entry.0) cache

-- the object holds these levels, and its cache agrees with them
abbrev pub IsCoherent : Levels → Abilities → Type 0
IsCoherent levels a = (a.permission_levels ≡ levels) × IsCached levels a.abilities_cache

-- the query returned this value, and a coherent object
abbrev pub Answers : {A : Type 0} → Levels → A → A × Abilities → Type 0
Answers levels v r = (r.0 ≡ v) × IsCoherent levels r.1

lookup-IsCached :
    (levels : Levels) (k : Text) (cache : Dict Bool) (b : Bool)
    → IsCached levels cache
    → lookup k cache ≡ some b
    → b ≡ compute_ability levels k
lookup-IsCached levels k [] b c e = ground arith
lookup-IsCached levels k ((j, v) ∷ cache) b (h, c) e = elim (Bool-cases (text_eq k j)) [
  | inl t ↦
      let same = text_eq-true k j t in
      ground (arith, h, e, t, same, ap (compute_ability levels) same)
  | inr t ↦ lookup-IsCached levels k cache b c (rw t at e)
]

insert-IsCached :
    (levels : Levels) (k : Text) (cache : Dict Bool)
    → IsCached levels cache
    → IsCached levels (insert k (compute_ability levels k) cache)
insert-IsCached levels k [] c = (refl, tt)
insert-IsCached levels k ((j, v) ∷ cache) (h, c) = elim (Bool-cases (text_eq k j)) [
  | inl t ↦ rw t (ap (compute_ability levels) (text_eq-true k j t), c)
  | inr t ↦ rw t (h, insert-IsCached levels k cache c)
]

cached_or-Answers :
    (levels : Levels) (k : Text) (a : Abilities) (o : Option Bool)
    → IsCoherent levels a
    → lookup k a.abilities_cache ≡ o
    → Answers levels (compute_ability levels k) (cached_or k o a)
cached_or-Answers levels k a none (p, c) e =
    (ap (λ l. compute_ability l k) p, (p, rw p (insert-IsCached levels k a.abilities_cache c)))
cached_or-Answers levels k a (some b) (p, c) e =
    (lookup-IsCached levels k a.abilities_cache b c e, (p, c))

can-Answers :
    (levels : Levels) (k : Text) (a : Abilities)
    → IsCoherent levels a
    → Answers levels (compute_ability levels k) (can k a)
unfolding can
can-Answers levels k a c = cached_or-Answers levels k a (lookup k a.abilities_cache) c refl

if_query-Answers :
    {A : Type 0} (levels : Levels) (b : Bool) (v w : A) (r : Bool × Abilities) (t f : Query A)
    → Answers levels b r
    → ((a : Abilities) → IsCoherent levels a → Answers levels v (t a))
    → ((a : Abilities) → IsCoherent levels a → Answers levels w (f a))
    → Answers levels (if b then v else w) (if_query r t f)
if_query-Answers levels b v w (true, a) t f (e, c) y n = rw (sym e) (y a c)
if_query-Answers levels b v w (false, a) t f (e, c) y n = rw (sym e) (n a c)

-- the user may manage any role
abbrev pub manages_any : Levels → Bool
manages_any levels = leb level_inherited (levels (codes "unit.members.manage_roles"))

abbrev pub manages_some : Levels → Bool
manages_some levels = leb level_local (levels (codes "unit.members.manage_roles"))

abbrev pub roles_key : Text
roles_key = codes "can_members_manage_roles"

abbrev pub any_key : Text
any_key = codes "can_members_manage_roles_any"

answer-Answers :
    {A : Type 0} (levels : Levels) (v : A) (a : Abilities)
    → IsCoherent levels a
    → Answers levels v (answer v a)
answer-Answers levels v a c = (refl, c)

can_manage_roles-Answers :
    (levels : Levels) (a : Abilities)
    → IsCoherent levels a
    → Answers levels
        (if compute_ability levels roles_key then true else compute_ability levels any_key)
        (can_manage_roles a)
unfolding can_manage_roles
can_manage_roles-Answers levels a c =
    if_query-Answers levels _ _ _ _ _ _ (can-Answers levels roles_key a c)
      (answer-Answers levels true) (can-Answers levels any_key)

manageable_role_min_level-Answers :
    (levels : Levels) (my_role_level : Option ℕ) (a : Abilities)
    → IsCoherent levels a
    → Answers levels
        (if (if compute_ability levels roles_key then true else compute_ability levels any_key)
          then (if compute_ability levels any_key
              then some 0
              else (if compute_ability levels roles_key then my_role_level else none))
          else none)
        (manageable_role_min_level my_role_level a)
unfolding manageable_role_min_level
manageable_role_min_level-Answers levels my_role_level a c =
    if_query-Answers levels _ _ _ _ _ _ (can_manage_roles-Answers levels a c)
      (λ a1 c1.
        if_query-Answers levels _ _ _ _ _ _ (can-Answers levels any_key a1 c1)
          (answer-Answers levels (some 0))
          (λ a2 c2.
            if_query-Answers levels _ _ _ _ _ _ (can-Answers levels roles_key a2 c2)
              (answer-Answers levels my_role_level) (answer-Answers levels none)))
      (answer-Answers levels none)

-- the tests of the two abilities, put together
reaches_min_level_lem :
    (levels : Levels) (role_level : ℕ) (my_role_level : Option ℕ)
    → reaches_min_level role_level (
        if (if compute_ability levels roles_key then true else compute_ability levels any_key)
        then (if compute_ability levels any_key
            then some 0
            else (if compute_ability levels roles_key then my_role_level else none))
        else none)
      ≡ (manages_any levels || manages_some levels && reaches_min_level role_level my_role_level)
unfolding compute_ability
reaches_min_level_lem levels role_level my_role_level = ground arith

-- Whatever a coherent cache holds, the answer is true exactly if the user manages roles by an
-- inherited or global level, or manages them by a local one and the role is not above the user's own
-- (whose level is known); and the object that comes back is coherent with the same levels.
pub can_manage_role_level-Answers :
    (levels : Levels) (role_level : ℕ) (my_role_level : Option ℕ) (a : Abilities)
    → IsCoherent levels a
    → Answers levels
        (manages_any levels || manages_some levels && reaches_min_level role_level my_role_level)
        (can_manage_role_level role_level my_role_level a)
unfolding can_manage_role_level
can_manage_role_level-Answers levels role_level my_role_level a c =
    let (e, c1) = manageable_role_min_level-Answers levels my_role_level a c in
    (
      ap (reaches_min_level role_level) e ∙ reaches_min_level_lem levels role_level my_role_level,
      c1,
    )

to_dict_from-Answers :
    (levels : Levels) (keys : List Text) (a : Abilities)
    → IsCoherent levels a
    → Answers levels (map (λ k. (k, compute_ability levels k)) keys) (to_dict_from keys a)
unfolding to_dict_from
to_dict_from-Answers levels [] a c = (refl, c)
to_dict_from-Answers levels (k ∷ keys) a c =
    let (e, c1) = can-Answers levels k a c in
    let (f, c2) = to_dict_from-Answers levels keys (can k a).1 c1 in ((λ i. (k, e i) ∷ f i), c2)

-- Whatever a coherent cache holds, the dictionary of all abilities has for each of them the answer
-- that would be computed from the levels, and the object that comes back is coherent.
pub to_dict-Answers :
    (levels : Levels) (a : Abilities)
    → IsCoherent levels a
    → Answers levels
        (map (λ k. (k, compute_ability levels k)) (map (λ entry. entry.0) ability_permission_map))
        (to_dict a)
unfolding to_dict
to_dict-Answers levels a c = to_dict_from-Answers levels _ a c
