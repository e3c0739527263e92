-- ===== src/Regalias/Rules.antt =====
-- The rows, the exceptions and the rules of common/services/regalias/regalias_service.py.
use yastubo_python.Prelude.{
  ℕ, Bool, true, false, ◌||◌, ◌&&◌, not, Option, none, some, List, [], ◌∷◌, map, member, any,
  select, ◌==◌, leb, if◌then◌else◌, Text, codes, text_eq, strip, lower,
}
use yastubo_python.Prelude.Action.{Result, ok, err}
use yastubo_python.Prelude.Int.{ℤ, pos, ltb_ℤ}
use yastubo_python.Units.{BusinessUnit, ChainError, find_unit, ancestor_chain}
use yastubo_python.Regalias.UserGraph.{Edge}

-- `source_type`: the two supported texts, or any other
pub data SourceType : Type 0 where
  user unit : SourceType
  other : Text → SourceType

abbrev pub source_type_eq : SourceType → SourceType → Bool
source_type_eq user user = true
source_type_eq unit unit = true
source_type_eq (SourceType.other s) (SourceType.other t) = text_eq s t
source_type_eq _ _ = false

-- A row of `regalias`; the commission is in the column's unit, 0.0001 percent.
pub record Regalia : Type 0 where
  pub id : ℕ
  pub source_type : SourceType
  pub source_id : ℕ
  pub beneficiary_user_id : ℕ
  pub commission : Option ℤ

pub record User : Type 0 where
  pub id : ℕ
  pub is_admin : Bool

-- The `HTTPException`s by their `detail`, and the failure of a lazy load.
pub data RegaliaError : Type 0 where
  app_regalias_malformed : RegaliaError
  app_regalias_invalid_type : Text → RegaliaError
  app_regalias_unsupported_type : Text → RegaliaError
  app_regalias_without_types : RegaliaError
  source_user_not_found source_unit_not_found source_type_not_supported : RegaliaError
  already_exists user_cycle unit_redundancy : RegaliaError
  chain_failed : ChainError → RegaliaError
  fuel_exhausted : RegaliaError

-- a character of `[a-z0-9_-]`
abbrev pub is_type_code : ℕ → Bool
is_type_code c = leb b'a' c && leb c b'z' || leb b'0' c && leb c b'9' || c == b'_' || c == b'-'

-- `re.match(r"^[a-z0-9_-]+$", s)`; the parts are stripped, so no line feed ends them
abbrev pub is_type_name : Text → Bool
is_type_name [] = false
is_type_name (c ∷ []) = is_type_code c
is_type_name (c ∷ d ∷ s) = is_type_code c && is_type_name (d ∷ s)

-- `s.split(",")`
unfoldable pub split_commas : Text → List Text
split_commas [] = [] ∷ []
split_commas (c ∷ s) = elim (split_commas s) [
  | [] ↦ (c ∷ []) ∷ []
  | p ∷ ps ↦ if c == b',' then [] ∷ p ∷ ps else (c ∷ p) ∷ ps
]

abbrev pub is_empty : Text → Bool
is_empty [] = true
is_empty (c ∷ s) = false

abbrev pub supported : Text → Option SourceType
supported s =
    if text_eq s (codes "user")
    then some user
    else if text_eq s (codes "unit")
    then some unit
    else none

-- the first loop of `allowed_source_types`
unfoldable pub normalize_types : List Text → Result RegaliaError (List SourceType)
normalize_types [] = ok []
normalize_types (p ∷ ps) =
    if not (is_type_name (lower p))
    then err (app_regalias_invalid_type p)
    else elim (supported (lower p)) [
      | none ↦ err (app_regalias_unsupported_type p)
      | some t ↦ elim (normalize_types ps) [ ok ts ↦ ok (t ∷ ts) | err e ↦ err e ]
    ]

-- the second loop: what was seen is left out, the order is kept
unfoldable pub unique_types : List SourceType → List SourceType → List SourceType
unique_types seen [] = []
unique_types seen (t ∷ ts) =
    let rest = unique_types seen ts in
    let fresh = unique_types (t ∷ seen) ts in
    if any (source_type_eq t) seen then rest else t ∷ fresh

unfoldable pub allowed_source_types : Text → Result RegaliaError (List SourceType)
unfolding strip lower split_commas normalize_types unique_types
allowed_source_types raw =
    if is_empty raw || is_empty (strip raw)
    then ok []
    else elim (select (λ p. not (is_empty p)) (map strip (split_commas raw))) [
      | [] ↦ err app_regalias_malformed
      | p ∷ ps ↦ elim (normalize_types (p ∷ ps)) [
        | err e ↦ err e
        | ok [] ↦ err app_regalias_without_types
        | ok (t ∷ ts) ↦ ok (unique_types [] (t ∷ ts))
      ]
    ]

-- `regalias_sources`
unfoldable pub regalias_sources : Text → Result RegaliaError (List SourceType)
unfolding allowed_source_types
regalias_sources = allowed_source_types

-- the query of `_would_create_user_cycle`
unfoldable pub user_rows : List Regalia → List Edge
user_rows [] = []
user_rows (r ∷ rs) =
    let rest = user_rows rs in
    if source_type_eq r.source_type user
    then record { from_id = r.beneficiary_user_id; to_id = r.source_id } ∷ rest
    else rest

-- the query of `_would_create_unit_redundancy_cycle`; a set has no order, and its elements may
-- stand twice here
unfoldable pub existing_unit_ids : List Regalia → ℕ → List ℕ
existing_unit_ids [] b = []
existing_unit_ids (r ∷ rs) b =
    let rest = existing_unit_ids rs b in
    if r.beneficiary_user_id == b && source_type_eq r.source_type unit
    then r.source_id ∷ rest
    else rest

-- What the session holds after `selectinload(BusinessUnit.parent)`: the units and their parents.
unfoldable pub with_parents : List BusinessUnit → List ℕ → List BusinessUnit
with_parents units ids =
    select
      (λ u.
        member u.id ids
        || any (λ c. member c.id ids && elim c.parent_id [ none ↦ false | some p ↦ p == u.id ])
            units)
      units

abbrev pub chain_ids : List BusinessUnit → List ℕ
chain_ids = map (λ u. u.id)

-- rule 1, for each unit that is assigned already
unfoldable pub candidate_above :
    List BusinessUnit → List BusinessUnit → ℕ → List ℕ → Result RegaliaError Bool
candidate_above units loaded unit_id [] = ok false
candidate_above units loaded unit_id (e ∷ es) = elim (find_unit e units) [
  | none ↦ candidate_above units loaded unit_id es
  | some existing ↦ elim (ancestor_chain loaded existing) [
    | err c ↦ err (chain_failed c)
    | ok chain ↦ elim (member unit_id (chain_ids chain)) [
      | true ↦ ok true
      | false ↦ candidate_above units loaded unit_id es
    ]
  ]
]

-- rule 1, then rule 2, once the candidate's row is found
unfoldable pub redundant_with :
    List BusinessUnit → List BusinessUnit → List ℕ → ℕ → BusinessUnit → Result RegaliaError Bool
redundant_with units loaded existing unit_id candidate = elim (ancestor_chain loaded candidate) [
  | err c ↦ err (chain_failed c)
  | ok chain ↦ elim (candidate_above units loaded unit_id existing) [
    | err e ↦ err e
    | ok true ↦ ok true
    | ok false ↦ ok (any (λ e. member e (chain_ids chain)) existing)
  ]
]

unfoldable pub redundant_among : List BusinessUnit → List ℕ → ℕ → Result RegaliaError Bool
redundant_among units existing unit_id =
    if member unit_id existing then ok true else elim (find_unit unit_id units) [
      | none ↦ ok false
      | some candidate ↦
          redundant_with units (with_parents units (unit_id ∷ existing)) existing unit_id candidate
    ]

-- with no unit assigned nothing is redundant
unfoldable pub would_create_unit_redundancy_cycle :
    List BusinessUnit → List Regalia → ℕ → ℕ → Result RegaliaError Bool
would_create_unit_redundancy_cycle units regalias b unit_id = elim (existing_unit_ids regalias b) [
  | [] ↦ ok false
  | e ∷ es ↦ redundant_among units (e ∷ es) unit_id
]

-- 100 percent
abbrev pub full : ℤ
full = pos 1000000

-- the new value of `commission` in `update_commission`
unfoldable pub clamp_commission : Option ℤ → ℤ
clamp_commission none = pos 0
clamp_commission (some c) = if ltb_ℤ c (pos 0) then pos 0 else if ltb_ℤ full c then full else c
