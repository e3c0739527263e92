-- ===== src/Regalias/UserGraph/Fuel.antt =====
-- The fuel of the search of _would_create_user_cycle.
use yastubo_python.Prelude.{
  ℕ, zero, suc, ◌+◌, ◌≤◌, ◌<◌, ◌≡◌, refl, Bool, true, false, inl, inr, some, List, [], ◌∷◌, arith,
  In, member, length, ◌==◌, if◌then◌else◌, Bool-cases, ==_refl,
}
use yastubo_python.Regalias.UserGraph.{Edge, adjacency, push_neighbors, search_from}
use yastubo_python.Regalias.UserGraph.Graph.{IsEdge, In-adjacency}

-- the rows whose source was not visited
abbrev unvisited : List Edge → List ℕ → ℕ
unvisited [] visited = 0
unvisited (e ∷ rows) visited = (if member e.to_id visited then 0 else 1) + unvisited rows visited

unvisited_start : (rows : List Edge) (visited : List ℕ) → unvisited rows visited ≤ length rows
unvisited_start [] visited = omega arith
unvisited_start (e ∷ rows) visited = ground (arith, unvisited_start rows visited)

unvisited_mono :
    (rows : List Edge) (n : ℕ) (visited : List ℕ)
    → unvisited rows (n ∷ visited) ≤ unvisited rows visited
unvisited_mono [] n visited = omega arith
unvisited_mono (e ∷ rows) n visited = ground (arith, unvisited_mono rows n visited)

-- visiting the source of a row lowers the number
unvisited_visit :
    (rows : List Edge) (a n : ℕ) (visited : List ℕ)
    → IsEdge rows a n
    → member n visited ≡ false
    → unvisited rows (n ∷ visited) + 1 ≤ unvisited rows visited
unvisited_visit [] a n visited h e = absurd h
unvisited_visit (r ∷ rows) a n visited (inl (p, q)) e =
    ground (arith, unvisited_mono rows n visited, ==_refl n)
unvisited_visit (r ∷ rows) a n visited (inr h) e =
    ground (arith, unvisited_visit rows a n visited h e)

push_measure :
    (rows : List Edge) (a : ℕ) (ns stack visited : List ℕ)
    → ((n : ℕ) → In n ns → IsEdge rows a n)
    → let (s, v) = push_neighbors ns (stack, visited) in
      length s + unvisited rows v ≤ length stack + unvisited rows visited
unfolding push_neighbors
push_measure rows a [] stack visited h = omega arith
push_measure rows a (m ∷ ns) stack visited h = elim (Bool-cases (member m visited)) [
  | inl e ↦ rw e (push_measure rows a ns stack visited (λ n i. h n (inr i)))
  | inr e ↦ rw e (
      omega (
        arith,
        push_measure rows a ns (m ∷ stack) (m ∷ visited) (λ n i. h n (inr i)),
        unvisited_visit rows a m visited (h m (inl refl)) e,
      ))
]

module _ (rows : List Edge) (target : ℕ) where
  search_total :
      (f : ℕ) (stack visited : List ℕ)
      → length stack + unvisited rows visited < f
      → (b : Bool) × (search_from f rows target (stack, visited) ≡ some b)
  unfolding search_from
  search_total zero stack visited h = elim h [ ]
  search_total (suc f) [] visited h = (false, refl)
  search_total (suc f) (current ∷ stack) visited h = elim (Bool-cases (current == target)) [
    | inl e ↦ (true, rw e)
    | inr e ↦ rw e (
        search_total f (push_neighbors (adjacency rows current) (stack, visited)).0
          (push_neighbors (adjacency rows current) (stack, visited)).1
          (omega (
            arith,
            push_measure rows current (adjacency rows current) stack visited
                (In-adjacency rows current),
          )))
  ]

  pub search_total_start :
      (source : ℕ)
      → (b : Bool) × (search_from (length rows + 2) rows target (source ∷ [], source ∷ []) ≡ some b)
  search_total_start source =
      search_total (length rows + 2) (source ∷ []) (source ∷ [])
        (omega (arith, unvisited_start rows (source ∷ [])))
