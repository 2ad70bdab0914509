-- ===== src/Crypto/Sessions/Examples.antt =====
-- Two aliases of a session of native/network_core/crates/network-core/src/crypto/session.rs.
use ssh_mobile.Base.{ℕ, ◌≡◌, true, List, [], ◌∷◌, ok, str_eq}
use ssh_mobile.Delivery.Keys.{Str, scope_eq}
use ssh_mobile.Crypto.Sessions.{new_manager, install_material_aliases}
use ssh_mobile.Crypto.Sessions.Calls.{
  ManagerCall, installs, removes, manage_each, Installs, install_material_aliases-Installs,
}

abbrev peer : Str
peer = 80 ∷ []

abbrev sessions : List Str
sessions = (1 ∷ []) ∷ (2 ∷ []) ∷ []

abbrev calls : List ManagerCall
calls = installs peer sessions (7 ∷ []) true ∷ removes peer (1 ∷ []) ∷ []

install_material_aliases-Installs_example :
    (handle : ℕ) × ((install_material_aliases
        (manage_each new_manager calls)
        peer
        sessions
        (9 ∷ [])
        true).0
      ≡ ok handle)
    × Installs
        (manage_each new_manager calls)
        peer
        sessions
        (9 ∷ [])
        true
        handle
        (install_material_aliases (manage_each new_manager calls) peer sessions (9 ∷ []) true).1
install_material_aliases-Installs_example =
    install_material_aliases-Installs calls peer sessions (9 ∷ []) true
