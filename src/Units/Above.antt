-- ===== src/Units/Above.antt =====
-- ancestor_chain of common/models/business_unit.py against the relation of a unit to those above it.
use yastubo_python.Prelude.{
  ℕ, zero, suc, ◌+◌, ◌≡◌, refl, sym, ap, subst, ◌∙◌, ◌⊎◌, inl, inr, ◌↔◌, Bool, true, Option, none,
  some, List, [], ◌∷◌, map, member, length, All, Bool-cases, Option-cases, ◌==◌, ==_refl, ==-true,
  arith,
}
use yastubo_python.Prelude.Action.{ok, err}
use yastubo_python.Units.{
  BusinessUnit, find_unit, ChainError, missing_greenlet, parent_of, chain_from, ancestor_chain,
}
use yastubo_python.Units.Visited.{find_unit-id}

-- The unit has the key `k`, or the row of its parent is there and is such a unit.
pub data IsOver (loaded : List BusinessUnit) (k : ℕ) : BusinessUnit → Type 0 where
  at_key : {u : BusinessUnit} → u.id ≡ k → IsOver loaded k u
  by_parent :
      {u : BusinessUnit} (p : ℕ) (w : BusinessUnit)
      → u.parent_id ≡ some p
      → find_unit p loaded ≡ some w
      → IsOver loaded k w
      → IsOver loaded k u

-- the rows hold no other version of the unit
abbrev pub Agrees : List BusinessUnit → BusinessUnit → Type 0
Agrees loaded u = (w : BusinessUnit) → find_unit u.id loaded ≡ some w → w ≡ u

abbrev ids : List BusinessUnit → List ℕ
ids = map (λ u. u.id)

module _ (loaded : List BusinessUnit) where
  parent_of-cases :
      (p : Option ℕ)
      → ((e : ChainError) × (parent_of loaded p ≡ err e))
        ⊎ (((p ≡ none) × (parent_of loaded p ≡ ok none))
            ⊎ ((k : ℕ) × (w : BusinessUnit) × (p ≡ some k)
                × (find_unit k loaded ≡ some w)
                × (parent_of loaded p ≡ ok (some w))))
  unfolding parent_of
  parent_of-cases none = inr (inl (refl, refl))
  parent_of-cases (some k) = elim (Option-cases (find_unit k loaded)) [
    | inl e ↦ inl (missing_greenlet, rw (e, parent_of) refl)
    | inr (w, e) ↦ inr (inr (k, w, refl, e, rw (e, parent_of) refl))
  ]

  -- what stands in the chain is above the unit
  chain_from_sound :
      (f k : ℕ) (node : BusinessUnit) (chain out : List BusinessUnit)
      → chain_from f loaded node chain ≡ ok out
      → member k (ids out) ≡ true
      → (member k (ids chain) ≡ true) ⊎ IsOver loaded k node
  unfolding chain_from
  chain_from_sound zero k node chain out e h = absurd (cc)
  chain_from_sound (suc f) k node chain out e h = elim (Bool-cases (member node.id (ids chain))) [
    | inl t ↦
        let e' : ok chain ≡ ok out = rw (t, chain_from) at e in
        let same : chain ≡ out = cc in inl (rw same h)
    | inr t ↦ elim (parent_of-cases node.parent_id) [
      | inl (x, p) ↦ absurd (cc (rw (t, p, chain_from) at e))
      | inr (inl (_, p)) ↦
          let e' : ok (node ∷ chain) ≡ ok out = rw (t, p, chain_from) at e in
          let same : out ≡ node ∷ chain = cc in first node chain k (rw same at h)
      | inr (inr (j, w, n, found, p)) ↦
          let e' : chain_from f loaded w (node ∷ chain) ≡ ok out = rw (t, p, chain_from) at e in
          elim (chain_from_sound f k w (node ∷ chain) out e' h) [
            | inl m ↦ first node chain k m
            | inr o ↦ inr (by_parent j w n found o)
          ]
    ]
  ]
    where
      first :
          (node : BusinessUnit) (chain : List BusinessUnit) (k : ℕ)
          → member k (ids (node ∷ chain)) ≡ true
          → (member k (ids chain) ≡ true) ⊎ IsOver loaded k node
      first node chain k h = elim (Bool-cases (k == node.id)) [
        | inl t ↦ inr (at_key (sym (==-true k node.id t)))
        | inr t ↦ inl (ground (arith, h, t))
      ]

module _ (loaded : List BusinessUnit) (start : BusinessUnit)
    (start_agrees : Agrees loaded start) where
  -- no other version of the unit is there, and it is no other version of the first unit
  abbrev IsOwn : BusinessUnit → Type 0
  IsOwn y = Agrees loaded y × (y.id ≡ start.id → y ≡ start)

  -- the parent of the unit is one of these keys
  abbrev Follows : (ℕ → Bool) → BusinessUnit → Type 0
  Follows f y =
      (p : ℕ) (w : BusinessUnit)
      → y.parent_id ≡ some p
      → find_unit p loaded ≡ some w
      → f w.id ≡ true

  -- rows that the chain may hold
  abbrev Sound : (ℕ → Bool) → List BusinessUnit → Type 0
  Sound f ys = All (λ y. Follows f y × IsOwn y) ys

  Sound-weaken :
      (f g : ℕ → Bool) (ys : List BusinessUnit)
      → ((k : ℕ) → f k ≡ true → g k ≡ true)
      → Sound f ys
      → Sound g ys
  Sound-weaken f g [] h s = tt
  Sound-weaken f g (y ∷ ys) h ((a, b), s) =
      (((λ p w e e'. h w.id (a p w e e')), b), Sound-weaken f g ys h s)

  -- the keys of the chain and of the unit that comes next
  abbrev next_ids : BusinessUnit → List BusinessUnit → ℕ → Bool
  next_ids node chain k = member k (node.id ∷ ids chain)

  -- a chain that is returned has the unit, and with every unit the parent
  chain_from-closed :
      (f : ℕ) (node : BusinessUnit) (chain out : List BusinessUnit)
      → chain_from f loaded node chain ≡ ok out
      → IsOwn node
      → Sound (next_ids node chain) chain
      → ((k : ℕ) → next_ids node chain k ≡ true → member k (ids out) ≡ true)
        × Sound (λ k. member k (ids out)) out
  unfolding chain_from
  chain_from-closed zero node chain out e a s = absurd (cc)
  chain_from-closed (suc f) node chain out e a s = elim (Bool-cases (member node.id (ids chain))) [
    | inl t ↦
        let e' : ok chain ≡ ok out = rw (t, chain_from) at e in
        let same : out ≡ chain = cc in
        rw same (
          again node chain t,
          Sound-weaken (next_ids node chain) (λ k. member k (ids chain)) chain (again node chain t)
              s,
        )
    | inr t ↦ elim (parent_of-cases loaded node.parent_id) [
      | inl (x, p) ↦ absurd (cc (rw (t, p, chain_from) at e))
      | inr (inl (n, p)) ↦
          let e' : ok (node ∷ chain) ≡ ok out = rw (t, p, chain_from) at e in
          let same : out ≡ node ∷ chain = cc in
          rw same ((λ k h. h), (((λ q w e1 e2. absurd (cc (n, e1))), a), s))
      | inr (inr (j, w, n, found, p)) ↦
          let e' : chain_from f loaded w (node ∷ chain) ≡ ok out = rw (t, p, chain_from) at e in
          let agree : IsOwn w = (λ v g. found_again j w v found g, λ k. is_start j w found k) in
          let here : Follows (next_ids w (node ∷ chain)) node = λ q v e1 e2.
            let k_is : some j ≡ some q = sym n ∙ e1 in
            let key : j ≡ q = cc in
            let row : some w ≡ some v = sym found ∙ rw key e2 in
            let same : w ≡ v = cc in
            subst (λ m. next_ids w (node ∷ chain) m ≡ true) (ap (λ (x : BusinessUnit). x.id) same)
              (own w (node ∷ chain)) in
          let (m, c) = chain_from-closed f w (node ∷ chain) out e' agree (
            (here, a),
            Sound-weaken (next_ids node chain) (next_ids w (node ∷ chain)) chain
                (λ k h. later w (node ∷ chain) k h) s,
          ) in
          ((λ k h. m k (later w (node ∷ chain) k h)), c)
    ]
  ]
    where
      again :
          (node : BusinessUnit) (chain : List BusinessUnit)
          → member node.id (ids chain) ≡ true
          → (k : ℕ) → next_ids node chain k ≡ true
          → member k (ids chain) ≡ true
      again node chain t k h = elim (Bool-cases (k == node.id)) [
        | inl u ↦ rw (==-true k node.id u) t
        | inr u ↦ ground (arith, h, u)
      ]

      own : (w : BusinessUnit) (chain : List BusinessUnit) → next_ids w chain w.id ≡ true
      own w chain = ground (arith, ==_refl w.id)

      later :
          (w : BusinessUnit) (chain : List BusinessUnit) (k : ℕ)
          → member k (ids chain) ≡ true
          → next_ids w chain k ≡ true
      later w chain k h = ground (arith, h)

      found_again :
          (j : ℕ) (w v : BusinessUnit)
          → find_unit j loaded ≡ some w
          → find_unit w.id loaded ≡ some v
          → v ≡ w
      found_again j w v e g =
          let key : w.id ≡ j = find_unit-id loaded j w e in
          let g' : find_unit j loaded ≡ some v = rw key at g in
          let same : some v ≡ some w = sym g' ∙ e in cc

      is_start :
          (j : ℕ) (w : BusinessUnit) → find_unit j loaded ≡ some w → w.id ≡ start.id → w ≡ start
      is_start j w e k =
          start_agrees w
            (subst (λ i. find_unit i loaded ≡ some w) (sym (find_unit-id loaded j w e) ∙ k) e)

  found_row :
      (f : ℕ → Bool) (k : ℕ) (ys : List BusinessUnit)
      → member k (ids ys) ≡ true
      → Sound f ys
      → (y : BusinessUnit) × (y.id ≡ k) × Follows f y × IsOwn y
  found_row f k [] h s = absurd (cc)
  found_row f k (y ∷ ys) h s = elim (Bool-cases (k == y.id)) [
    | inl t ↦ (y, sym (==-true k y.id t), s.0.0, s.0.1)
    | inr t ↦ found_row f k ys (rw t at h) s.1
  ]

  -- a unit that is reached from a unit of the chain stands in the chain
  chain_complete :
      (k : ℕ) (out : List BusinessUnit) (y : BusinessUnit)
      → Sound (λ j. member j (ids out)) out
      → member y.id (ids out) ≡ true
      → Follows (λ j. member j (ids out)) y
      → IsOver loaded k y
      → member k (ids out) ≡ true
  chain_complete k out y s m follows (at_key e) = rw e at m
  chain_complete k out y s m follows (by_parent p w n found o) =
      let m' : member w.id (ids out) ≡ true = follows p w n found in
      let (z, key, next, (agrees, _)) = found_row (λ j. member j (ids out)) w.id out m' s in
      let found' : find_unit z.id loaded ≡ some w =
        subst (λ j. find_unit j loaded ≡ some w) (sym (key ∙ find_unit-id loaded p w found))
          found in
      let same : w ≡ z = agrees w found' in
      chain_complete k out w s m' (subst (Follows (λ j. member j (ids out))) (sym same) next) o

-- A chain that is returned holds exactly the keys of the unit and of those above it, cycles of parents
-- included, if the rows hold no other version of the unit.
pub ancestor_chain-IsOver :
    (loaded : List BusinessUnit) (k : ℕ) (node : BusinessUnit) (out : List BusinessUnit)
    → Agrees loaded node
    → ancestor_chain loaded node ≡ ok out
    → (member k (map (λ u. u.id) out) ≡ true) ↔ IsOver loaded k node
unfolding ancestor_chain
ancestor_chain-IsOver loaded k node out a e = (
  (λ h. elim (chain_from_sound loaded (length loaded + 2) k node [] out e h) [
    | inl m ↦ absurd (cc)
    | inr o ↦ o
  ]),
  (λ o.
      let (m, s) =
        chain_from-closed loaded node a (length loaded + 2) node [] out e (a, λ _. refl) tt in
      let here : member node.id (ids out) ≡ true = m node.id (ground (arith, ==_refl node.id)) in
      let (z, key, next, (_, is_node)) =
        found_row loaded node a (λ j. member j (ids out)) node.id out here s in
      chain_complete loaded node a k out node s here
        (subst (Follows loaded node a (λ j. member j (ids out))) (is_node key) next) o),
)
