-- ===== src/Regalias/UserGraph.antt =====
-- `_would_create_user_cycle` of common/services/regalias/regalias_service.py: a depth-first search
-- over the relations beneficiary → source.
pub mod Graph
pub mod Search
pub mod Fuel
pub mod Acyclic
use yastubo_python.Prelude.{
  ℕ, zero, suc, ◌+◌, Bool, true, false, Option, none, some, List, [], ◌∷◌, length, member, ◌==◌,
  if◌then◌else◌,
}

-- a row `(beneficiary_user_id, source_id)`
pub record Edge : Type 0 where
  pub from_id : ℕ
  pub to_id : ℕ

-- `set.add`
abbrev pub add : ℕ → List ℕ → List ℕ
add a xs = if member a xs then xs else a ∷ xs

-- `adjacency.get(k)`; a missing key and an empty set are treated alike by the search
unfoldable pub adjacency : List Edge → ℕ → List ℕ
adjacency [] k = []
adjacency (e ∷ rows) k =
    let rest = adjacency rows k in if e.from_id == k then add e.to_id rest else rest

-- the inner loop: each neighbour that was not visited is visited and pushed
unfoldable pub push_neighbors : List ℕ → List ℕ × List ℕ → List ℕ × List ℕ
push_neighbors [] (stack, visited) = (stack, visited)
push_neighbors (n ∷ ns) (stack, visited) =
    let seen = push_neighbors ns (stack, visited) in
    let fresh = push_neighbors ns (n ∷ stack, n ∷ visited) in
    if member n visited then seen else fresh

-- The outer loop, the top of the stack first; `none` means that the fuel ran out.
unfoldable pub search_from : ℕ → List Edge → ℕ → List ℕ × List ℕ → Option Bool
search_from zero rows target state = none
search_from (suc f) rows target ([], visited) = some false
search_from (suc f) rows target (current ∷ stack, visited) =
    let rest =
      search_from f rows target (push_neighbors (adjacency rows current) (stack, visited)) in
    if current == target then some true else rest

unfoldable pub would_create_user_cycle : List Edge → ℕ → ℕ → Option Bool
would_create_user_cycle rows beneficiary_id source_id =
    if beneficiary_id == source_id
    then some true
    else search_from (length rows + 2) rows beneficiary_id (source_id ∷ [], source_id ∷ [])
