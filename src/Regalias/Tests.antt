-- ===== src/Regalias/Tests.antt =====
-- The theorems on royalties at small tables.
use yastubo_python.Prelude.{
  sym, ◌∙◌, Any, none, ℕ, ◌≡◌, refl, Bool, true, false, ◌↔◌, ◌⊎◌, inl, inr, some, List, [], ◌∷◌,
  arith,
}
use yastubo_python.Prelude.Action.{ok}
use yastubo_python.Prelude.Int.{pos}
use yastubo_python.Regalias.UserGraph.{
  Edge, adjacency, push_neighbors, search_from, would_create_user_cycle,
}
use yastubo_python.Regalias.UserGraph.Graph.{Reaches, here, next, IsAcyclic}
use yastubo_python.Regalias.UserGraph.Acyclic.{
  would_create_user_cycle_total, would_create_user_cycle_iff,
}
use yastubo_python.Regalias.Rules.{candidate_above, redundant_with, user, Regalia, user_rows}
use yastubo_python.Units.{new_unit, BusinessUnit, find_unit, parent_of, chain_from, ancestor_chain}
use yastubo_python.Units.Visited.{find_unit-id}
use yastubo_python.Units.Above.{IsOver}
use yastubo_python.Regalias.Redundancy.{IsBelow, AllAgree, redundant_with_iff}
use yastubo_python.Regalias.Invariant.{
  Passes, Fails, create_regalia-cases, IsUnique, create_regalia-IsUnique, create_regalia-IsAcyclic,
  ArePercents, update_commission-ArePercents,
}
use yastubo_python.Regalias.{
  Session, check_source, check_duplicate, check_cycles, insert_regalia, create_regalia,
  update_commission,
}

-- 1 has a royalty on 2
abbrev rows : List Edge
rows = record { from_id = 1; to_id = 2 } ∷ []

abbrev regalia : Regalia
regalia = record {
  id = 1;
  source_type = user;
  source_id = 2;
  beneficiary_user_id = 1;
  commission = some (pos 250000);
}

abbrev session : Session
session = record {
  regalias = regalia ∷ [];
  users =
      record { id = 1; is_admin = true }
      ∷ record { id = 2; is_admin = true }
      ∷ record { id = 3; is_admin = true }
      ∷ [];
  units = [];
  next_id = 2;
}

only_two : (a b : ℕ) → Reaches rows a b → (a ≡ b) ⊎ (b ≡ 2)
only_two a b here = inl refl
only_two a b (next p (inl (x, y))) = inr (cc)
only_two a b (next p (inr e)) = absurd e

rows-IsAcyclic : IsAcyclic rows
rows-IsAcyclic a b (inl (x, y)) r = ground (arith, only_two b a r, x, y)
rows-IsAcyclic a b (inr e) r = absurd e

would_create_user_cycle_total_example : (r : Bool) × (would_create_user_cycle rows 2 3 ≡ some r)
would_create_user_cycle_total_example = would_create_user_cycle_total rows 2 3

would_create_user_cycle_iff_example :
    (would_create_user_cycle rows 2 1 ≡ some true) ↔ Reaches rows 1 2
would_create_user_cycle_iff_example = would_create_user_cycle_iff rows 2 1

no_cycle : would_create_user_cycle rows 2 3 ≡ some false
unfolding would_create_user_cycle search_from adjacency push_neighbors
no_cycle = refl

create_regalia-cases_example :
    (create_regalia 2 user 3 session ≡ insert_regalia 2 user 3 session)
      × Passes (check_source user 3) session
      × Passes (check_duplicate 2 user 3) session
      × Passes (check_cycles 2 user 3) session
    ⊎ Fails (create_regalia 2 user 3) session
create_regalia-cases_example = create_regalia-cases 2 user 3 session

create_regalia-IsUnique_example : IsUnique (create_regalia 2 user 3 session).1.regalias
create_regalia-IsUnique_example = create_regalia-IsUnique 2 user 3 session (refl, tt)

session-IsAcyclic : IsAcyclic (user_rows session.regalias)
unfolding user_rows
session-IsAcyclic = rows-IsAcyclic

create_regalia-IsAcyclic_example :
    IsAcyclic (user_rows (create_regalia 2 user 3 session).1.regalias)
create_regalia-IsAcyclic_example = create_regalia-IsAcyclic 2 user 3 session session-IsAcyclic

session-ArePercents : ArePercents session.regalias
session-ArePercents = ((omega arith, omega arith), tt)

update_commission-ArePercents_example :
    ArePercents (update_commission 1 (some (pos 2000000)) session).1.regalias
update_commission-ArePercents_example =
    update_commission-ArePercents 1 (some (pos 2000000)) session session-ArePercents

abbrev root : BusinessUnit
root = new_unit 1 [] none none none

abbrev child : BusinessUnit
child = new_unit 2 [] none none (some 1)

-- a session that holds the rows of the table agrees with it
AllAgree-same : (units : List BusinessUnit) → AllAgree units units
AllAgree-same units e u p w q =
    let key : u.id ≡ e = find_unit-id units e u p in
    let q' : find_unit e units ≡ some w = rw key at q in
    let same : some w ≡ some u = sym q' ∙ p in cc

child_redundant : redundant_with (root ∷ child ∷ []) (root ∷ child ∷ []) (1 ∷ []) 2 child ≡ ok true
unfolding redundant_with candidate_above ancestor_chain chain_from parent_of find_unit
child_redundant = refl

redundant_with_iff_example : (true ≡ true) ↔ (
    Any (IsBelow (root ∷ child ∷ []) (root ∷ child ∷ []) 2) (1 ∷ [])
    ⊎ Any (λ e. IsOver (root ∷ child ∷ []) e child) (1 ∷ []))
unfolding find_unit
redundant_with_iff_example =
    redundant_with_iff (root ∷ child ∷ []) (root ∷ child ∷ []) (1 ∷ []) 2 child true
      (AllAgree-same (root ∷ child ∷ [])) (AllAgree-same (root ∷ child ∷ []) 2 child refl)
      child_redundant
