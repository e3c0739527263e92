-- ===== src/BusinessUnits/Requests.antt =====
-- The requests of business_units_controller.py that write units, one after another.
use yastubo_python.Prelude.{ℕ, Bool, Option, List, [], ◌∷◌, Text}
use yastubo_python.Prelude.Database.{get_db}
use yastubo_python.Units.{UnitType, UnitStatus}
use yastubo_python.BusinessUnits.{Session}
use yastubo_python.BusinessUnits.Crud.{
  store, update_basic, update_status, Branding, update_branding,
}
use yastubo_python.BusinessUnits.Hierarchy.{change_type, move}

pub data Request : Type 0 where
  post_unit : Text → UnitType → Option ℕ → Request
  patch_basic : ℕ → Text → Request
  patch_status : ℕ → UnitStatus → Request
  post_change_type : ℕ → UnitType → Bool → Request
  post_move : ℕ → Option ℕ → Request
  post_branding : ℕ → Branding → Request

-- the tables after a request
unfoldable pub handle : Request → Session → Session
handle (post_unit name kind p) s = (get_db (store name kind p) s).1
handle (patch_basic k name) s = (get_db (update_basic k name) s).1
handle (patch_status k status) s = (get_db (update_status k status) s).1
handle (post_change_type k t d) s = (get_db (change_type k t d) s).1
handle (post_move k p) s = (get_db (move k p) s).1
handle (post_branding k b) s = (get_db (update_branding k b) s).1

-- the tables after some requests
unfoldable pub run : List Request → Session → Session
unfolding handle
run [] s = s
run (r ∷ rs) s = run rs (handle r s)
