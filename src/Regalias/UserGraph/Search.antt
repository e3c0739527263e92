-- ===== src/Regalias/UserGraph/Search.antt =====
-- The answers of the search of _would_create_user_cycle, and paths.
use yastubo_python.Prelude.{
  ℕ, zero, suc, ◌≡◌, ◌≢◌, refl, true, false, ◌⊎◌, inl, inr, some, List, [], ◌∷◌, In, member, ◌==◌,
  Bool-cases, ==-true, ==-false, member-In,
}
use yastubo_python.Regalias.UserGraph.{Edge, adjacency, push_neighbors, search_from}
use yastubo_python.Regalias.UserGraph.Graph.{
  IsEdge, Reaches, here, next, In-adjacency, adjacency-In,
}

-- what `push_neighbors` puts on the stack comes from its arguments
push-from :
    (n : ℕ) (ns stack visited : List ℕ)
    → In n (push_neighbors ns (stack, visited)).0
    → In n ns ⊎ In n stack
unfolding push_neighbors
push-from n [] stack visited h = inr h
push-from n (m ∷ ns) stack visited h = elim (Bool-cases (member m visited)) [
  | inl e ↦ elim (push-from n ns stack visited (rw e at h)) [ inl p ↦ inl (inr p) | inr q ↦ inr q ]
  | inr e ↦ elim (push-from n ns (m ∷ stack) (m ∷ visited) (rw e at h)) [
    | inl p ↦ inl (inr p)
    | inr (inl q) ↦ inl (inl q)
    | inr (inr q) ↦ inr q
  ]
]

push-keeps_stack :
    (n : ℕ) (ns stack visited : List ℕ) → In n stack → In n (push_neighbors ns (stack, visited)).0
unfolding push_neighbors
push-keeps_stack n [] stack visited h = h
push-keeps_stack n (m ∷ ns) stack visited h = elim (Bool-cases (member m visited)) [
  | inl e ↦ rw e (push-keeps_stack n ns stack visited h)
  | inr e ↦ rw e (push-keeps_stack n ns (m ∷ stack) (m ∷ visited) (inr h))
]

push-keeps_visited :
    (n : ℕ) (ns stack visited : List ℕ) → In n visited → In n (push_neighbors ns (stack, visited)).1
unfolding push_neighbors
push-keeps_visited n [] stack visited h = h
push-keeps_visited n (m ∷ ns) stack visited h = elim (Bool-cases (member m visited)) [
  | inl e ↦ rw e (push-keeps_visited n ns stack visited h)
  | inr e ↦ rw e (push-keeps_visited n ns (m ∷ stack) (m ∷ visited) (inr h))
]

push-visits :
    (n : ℕ) (ns stack visited : List ℕ) → In n ns → In n (push_neighbors ns (stack, visited)).1
unfolding push_neighbors
push-visits n [] stack visited h = absurd h
push-visits n (m ∷ ns) stack visited (inl p) = elim (Bool-cases (member m visited)) [
  | inl e ↦ rw e (push-keeps_visited n ns stack visited (rw p (member-In m visited e)))
  | inr e ↦ rw e (push-keeps_visited n ns (m ∷ stack) (m ∷ visited) (inl p))
]
push-visits n (m ∷ ns) stack visited (inr h) = elim (Bool-cases (member m visited)) [
  | inl e ↦ rw e (push-visits n ns stack visited h)
  | inr e ↦ rw e (push-visits n ns (m ∷ stack) (m ∷ visited) h)
]

-- what is newly visited is on the stack
push-new :
    (n : ℕ) (ns stack visited : List ℕ)
    → In n (push_neighbors ns (stack, visited)).1
    → In n visited ⊎ In n (push_neighbors ns (stack, visited)).0
unfolding push_neighbors
push-new n [] stack visited h = inl h
push-new n (m ∷ ns) stack visited h = elim (Bool-cases (member m visited)) [
  | inl e ↦ rw e (push-new n ns stack visited (rw e at h))
  | inr e ↦ rw e (elim (push-new n ns (m ∷ stack) (m ∷ visited) (rw e at h)) [
    | inl (inl p) ↦ inr (push-keeps_stack n ns (m ∷ stack) (m ∷ visited) (inl p))
    | inl (inr q) ↦ inl q
    | inr q ↦ inr q
  ])
]

module _ (rows : List Edge) (source target : ℕ) where
  pub search_sound :
      (f : ℕ) (stack visited : List ℕ)
      → ((n : ℕ) → In n stack → Reaches rows source n)
      → search_from f rows target (stack, visited) ≡ some true
      → Reaches rows source target
  unfolding search_from
  search_sound zero stack visited r h = cc
  search_sound (suc f) [] visited r h = cc
  search_sound (suc f) (current ∷ stack) visited r h = elim (Bool-cases (current == target)) [
    | inl e ↦ rw (← ==-true current target e) (r current (inl refl))
    | inr e ↦
        search_sound f (push_neighbors (adjacency rows current) (stack, visited)).0
          (push_neighbors (adjacency rows current) (stack, visited)).1
          (λ n i. elim (push-from n (adjacency rows current) stack visited i) [
            | inl a ↦ next (r current (inl refl)) (In-adjacency rows current n a)
            | inr s ↦ r n (inr s)
          ])
          (rw e at h)
  ]

  -- Whatever was visited and left the stack is no target, and all its neighbours were visited.
  abbrev pub IsClosed : List ℕ → List ℕ → Type 0
  IsClosed stack visited =
      (v : ℕ)
      → In v visited
      → In v stack ⊎ ((v ≢ target) × ((w : ℕ) → IsEdge rows v w → In w visited))

  closed_reach :
      (visited : List ℕ)
      → IsClosed [] visited
      → In source visited
      → (b : ℕ) → Reaches rows source b
      → In b visited
  closed_reach visited c s b here = s
  closed_reach visited c s b (next {b = m} p e) = elim (c m (closed_reach visited c s m p)) [
    | inl k ↦ absurd k
    | inr (_, k) ↦ k b e
  ]

  step-IsClosed :
      (current : ℕ) (stack visited : List ℕ)
      → current ≢ target
      → IsClosed (current ∷ stack) visited
      → IsClosed
          (push_neighbors (adjacency rows current) (stack, visited)).0
          (push_neighbors (adjacency rows current) (stack, visited)).1
  step-IsClosed current stack visited ne c v i =
      elim (push-new v (adjacency rows current) stack visited i) [
        | inr k ↦ inl k
        | inl k ↦ elim (c v k) [
          | inl (inl p) ↦ inr (
            rw p ne,
            λ w e.
                push-visits w (adjacency rows current) stack visited
                  (adjacency-In rows current w (rw p at e)),
          )
          | inl (inr q) ↦ inl (push-keeps_stack v (adjacency rows current) stack visited q)
          | inr (vt, q) ↦
              inr (vt, λ w e. push-keeps_visited w (adjacency rows current) stack visited (q w e))
        ]
      ]

  pub search_complete :
      (f : ℕ) (stack visited : List ℕ)
      → IsClosed stack visited
      → In source visited
      → search_from f rows target (stack, visited) ≡ some false
      → ¬ (Reaches rows source target)
  unfolding search_from
  search_complete zero stack visited c s h = cc
  search_complete (suc f) [] visited c s h = λ p.
      elim (c target (closed_reach visited c s target p)) [ inl k ↦ absurd k | inr (k, _) ↦ k refl ]
  search_complete (suc f) (current ∷ stack) visited c s h = elim (Bool-cases (current == target)) [
    | inl e ↦ absurd (cc (rw e at h))
    | inr e ↦
        search_complete f (push_neighbors (adjacency rows current) (stack, visited)).0
          (push_neighbors (adjacency rows current) (stack, visited)).1
          (step-IsClosed current stack visited (==-false current target e) c)
          (push-keeps_visited source (adjacency rows current) stack visited s) (rw e at h)
  ]
