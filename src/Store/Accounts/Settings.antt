-- ===== src/Store/Accounts/Settings.antt =====
-- `Get` of apps/api/internal/store/pg/setting_store.go. A row holds the decrypted value.
use orkai.Prelude.{String, List, [], ◌∷◌, str_eq, if◌then◌else◌}
use orkai.Exec.{Exec}
use orkai.World.{World, Context}
use orkai.Store.Query.{select}

-- A key with no row reads as the empty text.
abbrev pub value_of : String → List (String × String) → String
value_of k [] = ""
value_of k ((j, v) ∷ rest) = if str_eq j k then v else value_of k rest

unfoldable pub get : Context → String → Exec World String
unfolding select
get c key = select c (λ db. value_of key db.settings)
