-- ===== src/Roles/Effects.antt =====
-- The mutations of permission_service.py and the answers of its queries.
use yastubo_python.Prelude.Rows.{any-Any, Any-any}
use yastubo_python.Prelude.{
  Any, ◌⊎◌, ◌↔◌, text_eq-true, text_eq_refl, ℕ, ◌≡◌, refl, sym, ◌∙◌, ap, Bool, true, ◌&&◌, ◌||◌,
  not, List, [], ◌∷◌, ◌++◌, map, any, select, ◌==◌, Text, text_eq, Bool-cases, inl, inr, arith,
  ==_refl,
}
use yastubo_python.Roles.{
  Link, Permission, Tables, is_link, linked, add_link, remove_link, is_direct, is_by_role,
  get_permissions, user_can, assign_role, remove_role, give_permission,
}

linked-append :
    (u r : ℕ) (links : List Link) (l : Link)
    → linked u r (links ++ l ∷ []) ≡ (linked u r links || is_link u r l)
unfolding linked
linked-append u r [] l = ground arith
linked-append u r (k ∷ links) l = ground (arith, linked-append u r links l)

-- the test for a pair
abbrev pub is_pair : ℕ → ℕ → ℕ → ℕ → Bool
is_pair u r v s = u == v && r == s

linked_found :
    (u r v s : ℕ) (links : List Link)
    → linked v s links ≡ true
    → (linked u r links || is_pair u r v s) ≡ linked u r links
unfolding linked
linked_found u r v s [] h = ground arith
linked_found u r v s (l ∷ links) h = ground (arith, linked_found u r v s links)

linked-add_link :
    (u r v s : ℕ) (links : List Link)
    → linked u r (add_link v s links) ≡ (linked u r links || is_pair u r v s)
unfolding add_link
linked-add_link u r v s links = elim (Bool-cases (linked v s links)) [
  | inl e ↦ rw e (sym (linked_found u r v s links e))
  | inr e ↦ rw e (linked-append u r links (record { owner_id = v; target_id = s }) ∙ ground arith)
]

linked-remove_link :
    (u r v s : ℕ) (links : List Link)
    → linked u r (remove_link v s links) ≡ (linked u r links && not (is_pair u r v s))
unfolding linked remove_link
linked-remove_link u r v s [] = ground arith
linked-remove_link u r v s (l ∷ links) = ground (arith, linked-remove_link u r v s links)

add_link_again :
    (v s : ℕ) (links : List Link) → add_link v s (add_link v s links) ≡ add_link v s links
unfolding add_link
add_link_again v s links = elim (Bool-cases (linked v s links)) [
  | inl e ↦ rw e (rw e refl)
  | inr e ↦
      rw e (
        rw (linked-append v s links (record { owner_id = v; target_id = s }) ∙ own_pair v s _) refl)
]
  where
    own_pair : (v s : ℕ) (b : Bool) → (b || (v == v && s == s)) ≡ true
    own_pair v s b = ground (arith, ==_refl v, ==_refl s)

-- After a role is assigned to a user, a user has a role exactly if it had it before or it is that
-- pair; after a role is removed, exactly if it had it before and it is not that pair; and to assign a
-- role a second time changes nothing.
pub assign_role_lem :
    (u r v s : ℕ) (t : Tables)
    → (linked u r (assign_role v s t).model_has_roles
        ≡ (linked u r t.model_has_roles || is_pair u r v s))
      × (linked u r (remove_role v s t).model_has_roles
          ≡ (linked u r t.model_has_roles && not (is_pair u r v s)))
      × (assign_role v s (assign_role v s t) ≡ assign_role v s t)
unfolding assign_role remove_role
assign_role_lem u r v s t = (
  linked-add_link u r v s t.model_has_roles,
  linked-remove_link u r v s t.model_has_roles,
  ap (λ (l : List Link). record t { model_has_roles = l }) (add_link_again v s t.model_has_roles),
)

any-select :
    (n : Text) (f : Permission → Bool) (ps : List Permission)
    → any (text_eq n) (map (λ p. p.name) (select f ps)) ≡ any (λ p. text_eq n p.name && f p) ps
any-select n f [] = refl
any-select n f (p ∷ ps) = ground (arith, any-select n f ps)

any-append :
    (n : Text) (xs ys : List Text)
    → any (text_eq n) (xs ++ ys) ≡ (any (text_eq n) xs || any (text_eq n) ys)
any-append n [] ys = refl
any-append n (x ∷ xs) ys = ground (arith, any-append n xs ys)

any_or :
    (g f h : Permission → Bool) (ps : List Permission)
    → (any (λ p. g p && f p) ps || any (λ p. g p && h p) ps) ≡ any (λ p. g p && (f p || h p)) ps
any_or g f h [] = refl
any_or g f h (p ∷ ps) = ground (arith, any_or g f h ps)

-- the two lists of names as one query
user_can_lem :
    (u : ℕ) (n : Text) (t : Tables)
    → user_can u n t
      ≡ any (λ p. text_eq n p.name && (is_direct u t p || is_by_role u t p)) t.permissions
unfolding user_can get_permissions
user_can_lem u n t =
    any-append n (map (λ p. p.name) (select (is_direct u t) t.permissions)) _
    ∙ or_eq (any-select n (is_direct u t) t.permissions)
        (any-select n (is_by_role u t) t.permissions)
    ∙ any_or (λ p. text_eq n p.name) (is_direct u t) (is_by_role u t) t.permissions
  where
    or_eq : {a b c d : Bool} → a ≡ b → c ≡ d → (a || c) ≡ (b || d)
    or_eq p q = λ i. p i || q i

any_given :
    (g d r : Permission → Bool) (b : Bool) (k : ℕ) (ps : List Permission)
    → any (λ p. g p && ((d p || (b && p.id == k)) || r p)) ps
      ≡ (any (λ p. g p && (d p || r p)) ps || (b && any (λ p. p.id == k && g p) ps))
any_given g d r b k [] = ground arith
any_given g d r b k (p ∷ ps) = ground (arith, any_given g d r b k ps)

any-ext :
    (f g : Permission → Bool) (ps : List Permission)
    → ((p : Permission) → f p ≡ g p)
    → any f ps ≡ any g ps
any-ext f g [] h = refl
any-ext f g (p ∷ ps) h = λ i. h p i || any-ext f g ps h i

-- After a permission is given to a user directly, a user has a permission by its name exactly if it
-- had it before, or it is that user and the permission that was given has the name.
pub give_permission_lem :
    (u v k : ℕ) (n : Text) (t : Tables)
    → user_can u n (give_permission v k t)
      ≡ (user_can u n t || (u == v && any (λ p. p.id == k && text_eq n p.name) t.permissions))
unfolding give_permission
give_permission_lem u v k n t =
    user_can_lem u n (give_permission v k t)
    ∙ any-ext _ _ t.permissions (λ p i.
      text_eq n p.name
      && (linked-add_link u p.id v k t.model_has_permissions i || is_by_role u t p))
    ∙ any_given (λ p. text_eq n p.name) (is_direct u t) (is_by_role u t) (u == v) k t.permissions
    ∙ ap (λ (b : Bool). b || (u == v && any (λ p. p.id == k && text_eq n p.name) t.permissions))
        (sym (user_can_lem u n t))

-- the table links the two
abbrev pub IsLinked : ℕ → ℕ → List Link → Type 0
IsLinked u r links = Any (λ l. (l.owner_id ≡ u) × (l.target_id ≡ r)) links

-- a permission is given to the user, or to a role that is assigned to the user
abbrev pub IsGranted : ℕ → Tables → Permission → Type 0
IsGranted u t p =
    IsLinked u p.id t.model_has_permissions
    ⊎ Any (λ l. (l.target_id ≡ p.id) × IsLinked u l.owner_id t.model_has_roles)
        t.role_has_permissions

is_link-true : (u r : ℕ) (l : Link) → is_link u r l ≡ true → (l.owner_id ≡ u) × (l.target_id ≡ r)
is_link-true u r l h = (ground (arith, h), ground (arith, h))

true-is_link : (u r : ℕ) (l : Link) → (l.owner_id ≡ u) × (l.target_id ≡ r) → is_link u r l ≡ true
true-is_link u r l (e, e') = rw (e, e', ==_refl u, ==_refl r) refl

linked-IsLinked : (u r : ℕ) (links : List Link) → linked u r links ≡ true → IsLinked u r links
unfolding linked
linked-IsLinked u r = any-Any (is_link u r) _ (is_link-true u r) (true-is_link u r)

IsLinked-linked : (u r : ℕ) (links : List Link) → IsLinked u r links → linked u r links ≡ true
unfolding linked
IsLinked-linked u r = Any-any (is_link u r) _ (is_link-true u r) (true-is_link u r)

module _ (u : ℕ) (t : Tables) (p : Permission) where
  abbrev by_role : Link → Bool
  by_role l = l.target_id == p.id && linked u l.owner_id t.model_has_roles

  abbrev IsByRole : Link → Type 0
  IsByRole l = (l.target_id ≡ p.id) × IsLinked u l.owner_id t.model_has_roles

  by_role_sound : (l : Link) → by_role l ≡ true → IsByRole l
  by_role_sound l h =
      let there : linked u l.owner_id t.model_has_roles ≡ true = ground (arith, h) in
      (ground (arith, h), linked-IsLinked u l.owner_id t.model_has_roles there)

  by_role_complete : (l : Link) → IsByRole l → by_role l ≡ true
  by_role_complete l (e, m) =
      rw (e, ==_refl p.id, IsLinked-linked u l.owner_id t.model_has_roles m) refl

  IsGranted-sound : (is_direct u t p || is_by_role u t p) ≡ true → IsGranted u t p
  IsGranted-sound h = elim (Bool-cases (is_direct u t p)) [
    | inl d ↦ inl (linked-IsLinked u p.id t.model_has_permissions d)
    | inr d ↦
        inr (
          any-Any by_role IsByRole by_role_sound by_role_complete t.role_has_permissions
            (rw d at h))
  ]

  IsGranted-complete : IsGranted u t p → (is_direct u t p || is_by_role u t p) ≡ true
  IsGranted-complete (inl m) = rw (IsLinked-linked u p.id t.model_has_permissions m) refl
  IsGranted-complete (inr a) =
      let there : is_by_role u t p ≡ true =
        Any-any by_role IsByRole by_role_sound by_role_complete t.role_has_permissions a in
      ground (arith, there)

module _ (u : ℕ) (n : Text) (t : Tables) where
  abbrev is_named : Permission → Bool
  is_named p = text_eq n p.name && (is_direct u t p || is_by_role u t p)

  abbrev IsNamed : Permission → Type 0
  IsNamed p = (n ≡ p.name) × IsGranted u t p

  IsNamed-sound : (p : Permission) → is_named p ≡ true → IsNamed p
  IsNamed-sound p h = elim (Bool-cases (text_eq n p.name)) [
    | inl e ↦ (text_eq-true n p.name e, IsGranted-sound u t p (rw e at h))
    | inr e ↦ absurd (cc (rw e at h))
  ]

  IsNamed-complete : (p : Permission) → IsNamed p → is_named p ≡ true
  IsNamed-complete p (e, g) =
      let same : text_eq n p.name ≡ true = rw (sym e) (text_eq_refl n) in
      rw (same, IsGranted-complete u t p g) refl

-- A user has a permission by its name exactly if some permission of that name is linked to the user, or
-- is linked to a role that is linked to the user.
pub user_can_iff :
    (u : ℕ) (n : Text) (t : Tables)
    → (user_can u n t ≡ true) ↔ Any (λ p. (n ≡ p.name) × IsGranted u t p) t.permissions
user_can_iff u n t = (
  (λ h.
      any-Any (is_named u n t) (IsNamed u n t) (IsNamed-sound u n t) (IsNamed-complete u n t)
        t.permissions (sym (user_can_lem u n t) ∙ h)),
  (λ a.
      user_can_lem u n t
      ∙ Any-any (is_named u n t) (IsNamed u n t) (IsNamed-sound u n t) (IsNamed-complete u n t)
          t.permissions a),
)
