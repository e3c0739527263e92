-- ===== src/BusinessUnits/Register/Requests.antt =====
-- The requests of business_units_controller.py that write members and royalties, one after another.
use yastubo_python.Prelude.{
  ℕ, ◌≡◌, inl, inr, Bool, true, ◌&&◌, not, Option, none, some, List, [], ◌∷◌, Text, Bool-cases,
  arith, if◌then◌else◌,
}
use yastubo_python.Prelude.Int.{ℤ, pos, ltb_ℤ}
use yastubo_python.Prelude.Database.{get_db, Returns-get_db}
use yastubo_python.Units.{UnitStatus}
use yastubo_python.Regalias.Rules.{full}
use yastubo_python.BusinessUnits.{Session}
use yastubo_python.BusinessUnits.Members.{
  member_link, member_create_user, member_update_role, member_update_status, member_remove,
}
use yastubo_python.BusinessUnits.Commissions.{
  gsa_commissions_store, gsa_commissions_update, gsa_commissions_destroy,
}
use yastubo_python.BusinessUnits.Register.{IsRegister, member_link-Kept, member_create_user-Kept}
use yastubo_python.BusinessUnits.Register.Edits.{
  member_update_role-Kept, member_update_status-Kept, member_remove-Kept,
}
use yastubo_python.BusinessUnits.Register.Royalties.{
  IsSentPercent, gsa_commissions_store-Kept, gsa_commissions_update-Kept,
  gsa_commissions_destroy-Kept,
}

pub data RegisterRequest : Type 0 where
  post_member : ℕ → ℕ → Option ℕ → RegisterRequest
  post_user : ℕ → Text → Text → Text → ℕ → RegisterRequest
  patch_role : ℕ → ℕ → ℕ → RegisterRequest
  patch_member_status : ℕ → ℕ → UnitStatus → RegisterRequest
  delete_member : ℕ → ℕ → RegisterRequest
  post_commission : ℕ → ℕ → RegisterRequest
  patch_commission : ℕ → ℕ → Option (Option ℤ) → RegisterRequest
  delete_commission : ℕ → ℕ → RegisterRequest

-- the bounds of `UpdateGSACommissionRequest`; a request outside of them reaches no handler
unfoldable pub is_sent_percent : Option (Option ℤ) → Bool
is_sent_percent (some (some c)) = not (ltb_ℤ c (pos 0)) && not (ltb_ℤ full c)
is_sent_percent _ = true

is_sent_percent-IsSentPercent :
    (sent : Option (Option ℤ)) → is_sent_percent sent ≡ true → IsSentPercent sent
unfolding is_sent_percent
is_sent_percent-IsSentPercent none h = tt
is_sent_percent-IsSentPercent (some none) h = tt
is_sent_percent-IsSentPercent (some (some c)) h = ground arith

-- the tables after a request
unfoldable pub handle_register : RegisterRequest → Session → Session
unfolding is_sent_percent
handle_register (post_member k u r) s = (get_db (member_link k u r) s).1
handle_register (post_user k f l e r) s = (get_db (member_create_user k f l e r) s).1
handle_register (patch_role k n r) s = (get_db (member_update_role k n r) s).1
handle_register (patch_member_status k n st) s = (get_db (member_update_status k n st) s).1
handle_register (delete_member k n) s = (get_db (member_remove k n) s).1
handle_register (post_commission k u) s = (get_db (gsa_commissions_store k u) s).1
handle_register (patch_commission k n c) s =
    if is_sent_percent c then (get_db (gsa_commissions_update k n c) s).1 else s
handle_register (delete_commission k n) s = (get_db (gsa_commissions_destroy k n) s).1

-- the tables after some requests
unfoldable pub run_register : List RegisterRequest → Session → Session
unfolding handle_register
run_register [] s = s
run_register (r ∷ rs) s = run_register rs (handle_register r s)

handle_register-IsRegister :
    (r : RegisterRequest) (s : Session) → IsRegister s → IsRegister (handle_register r s)
unfolding handle_register is_sent_percent
handle_register-IsRegister (post_member k u r) s i =
    Returns-get_db IsRegister (member_link k u r) s i (member_link-Kept k u r s i)
handle_register-IsRegister (post_user k f l e r) s i =
    Returns-get_db IsRegister (member_create_user k f l e r) s i
      (member_create_user-Kept k f l e r s i)
handle_register-IsRegister (patch_role k n r) s i =
    Returns-get_db IsRegister (member_update_role k n r) s i (member_update_role-Kept k n r s i)
handle_register-IsRegister (patch_member_status k n st) s i =
    Returns-get_db IsRegister (member_update_status k n st) s i
      (member_update_status-Kept k n st s i)
handle_register-IsRegister (delete_member k n) s i =
    Returns-get_db IsRegister (member_remove k n) s i (member_remove-Kept k n s i)
handle_register-IsRegister (post_commission k u) s i =
    Returns-get_db IsRegister (gsa_commissions_store k u) s i (gsa_commissions_store-Kept k u s i)
handle_register-IsRegister (patch_commission k n c) s i = elim (Bool-cases (is_sent_percent c)) [
  | inr t ↦ rw (t, handle_register) i
  | inl t ↦
      rw (t, handle_register)
        (Returns-get_db IsRegister (gsa_commissions_update k n c) s i
          (gsa_commissions_update-Kept k n c s (is_sent_percent-IsSentPercent c t) i))
]
handle_register-IsRegister (delete_commission k n) s i =
    Returns-get_db IsRegister (gsa_commissions_destroy k n) s i
      (gsa_commissions_destroy-Kept k n s i)

-- If no user is a member of a unit twice, no user has two royalties of one source, every royalty that
-- is set lies between 0 and 100 percent, and the keys of users are below the next one, all this holds
-- after any list of requests that write members, new users and royalties of units.
pub run_register-IsRegister :
    (rs : List RegisterRequest) (s : Session) → IsRegister s → IsRegister (run_register rs s)
unfolding run_register
run_register-IsRegister [] s i = i
run_register-IsRegister (r ∷ rs) s i =
    run_register-IsRegister rs (handle_register r s) (handle_register-IsRegister r s i)
