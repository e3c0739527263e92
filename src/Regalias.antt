-- ===== src/Regalias.antt =====
-- The royalties service, common/services/regalias/regalias_service.py: the operations of
-- `RegaliasService` over the tables that it reads and writes.
pub mod UserGraph
pub mod Rules
pub mod Invariant
pub mod Redundancy
mod Tests
use yastubo_python.Prelude.{
  ℕ, ◌+◌, Bool, true, false, ◌&&◌, not, Option, none, some, List, [], ◌∷◌, ◌++◌, any, select, ◌==◌,
  if◌then◌else◌, update_where, is_some,
}
use yastubo_python.Prelude.Action.{
  Result, ok, err, Action, raise, raise_if, ◌>>=◌, ◌>>◌, lift, pure,
}
use yastubo_python.Prelude.Int.{ℤ, pos}
use yastubo_python.Units.{BusinessUnit, find_unit}
use Rules.{
  SourceType, user, unit, source_type_eq, Regalia, User, RegaliaError, source_user_not_found,
  source_unit_not_found, source_type_not_supported, already_exists, user_cycle, unit_redundancy,
  fuel_exhausted, user_rows, would_create_unit_redundancy_cycle, clamp_commission,
}
use UserGraph.{would_create_user_cycle}

-- the tables
pub record Session : Type 0 where
  pub regalias : List Regalia
  pub users : List User
  pub units : List BusinessUnit
  pub next_id : ℕ

abbrev pub Service : Type 0 → Type 0
Service A = Action Session RegaliaError A

-- the existence of the source, by its type
unfoldable pub check_source : SourceType → ℕ → Service (Unit {0})
unfolding find_unit
check_source SourceType.user k s =
    raise_if (not (any (λ u. u.id == k && u.is_admin) s.users)) source_user_not_found s
check_source SourceType.unit k s =
    raise_if (not (is_some (find_unit k s.units))) source_unit_not_found s
check_source (SourceType.other t) k s = raise source_type_not_supported s

abbrev pub is_same : ℕ → SourceType → ℕ → Regalia → Bool
is_same b t k r = r.beneficiary_user_id == b && (source_type_eq r.source_type t && r.source_id == k)

unfoldable pub check_duplicate : ℕ → SourceType → ℕ → Service (Unit {0})
check_duplicate b t k s = raise_if (any (is_same b t k) s.regalias) already_exists s

-- the two checks of the hierarchies
unfoldable pub check_cycles : ℕ → SourceType → ℕ → Service (Unit {0})
check_cycles b SourceType.user k s = elim (would_create_user_cycle (user_rows s.regalias) b k) [
  | none ↦ raise fuel_exhausted s
  | some cyclic ↦ raise_if cyclic user_cycle s
]
check_cycles b SourceType.unit k s =
    elim (would_create_unit_redundancy_cycle s.units s.regalias b k) [
      | err e ↦ raise e s
      | ok redundant ↦ raise_if redundant unit_redundancy s
    ]
check_cycles b (SourceType.other t) k s = (ok tt, s)

abbrev pub insert_regalia : ℕ → SourceType → ℕ → Service Regalia
insert_regalia b t k s =
    let r : Regalia = record {
      id = s.next_id;
      source_type = t;
      source_id = k;
      beneficiary_user_id = b;
      commission = some (pos 0);
    } in
    (ok r, record s { regalias = r ∷ s.regalias; next_id = s.next_id + 1 })

unfoldable pub create_regalia : ℕ → SourceType → ℕ → Service Regalia
create_regalia b t k = do
  check_source t k
  check_duplicate b t k
  check_cycles b t k
  insert_regalia b t k

unfoldable pub update_commission : ℕ → Option ℤ → Service (Unit {0})
unfolding clamp_commission
update_commission regalia_id commission s = (
  ok tt,
  record s {
    regalias =
        update_where (λ r. r.id == regalia_id)
          (λ r. record r { commission = some (clamp_commission commission) }) s.regalias;
  },
)

-- the payload is the row itself
unfoldable pub delete_regalia : Regalia → Service Regalia
delete_regalia regalia s =
    (ok regalia, record s { regalias = select (λ r. not (r.id == regalia.id)) s.regalias })
