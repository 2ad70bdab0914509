-- ===== src/Crypto/Sessions.antt =====
-- `SessionCryptoManager` of native/network_core/crates/network-core/src/crypto/session.rs. An
-- `Arc` of a context is a handle into a heap, so that aliases of a session share their context. A
-- poisoned lock is left out.
pub mod Aliases
pub mod Calls
pub mod Examples
use ssh_mobile.Base.{
  ℕ, ◌+◌, Bool, not, List, [], ◌∷◌, Option, none, some, ◌==◌, Result, ok, err, str_beq,
}
use ssh_mobile.Base.Maps.{get, put, delete, retain}
use ssh_mobile.Delivery.Keys.{Str, Scope, scope_eq}
use ssh_mobile.Crypto.Types.{Bytes, CryptoError, e2ee_required}
use ssh_mobile.Crypto.Context.{CryptoContext, from_session_root}

-- The contexts by peer and session, and the heap with its next handle.
pub record SessionCryptoManager : Type 0 where
  pub contexts : List (Scope × ℕ)
  pub heap : List (ℕ × CryptoContext)
  pub next_handle : ℕ

abbrev pub new_manager : SessionCryptoManager
new_manager = record { contexts = []; heap = []; next_handle = 0 }

abbrev pub put_aliases : Str → List Str → ℕ → List (Scope × ℕ) → List (Scope × ℕ)
put_aliases peer [] handle m = m
put_aliases peer (session ∷ rest) handle m =
    put_aliases peer rest handle (put (peer, session) handle m)

unfoldable pub install_material_aliases :
    SessionCryptoManager
    → Str
    → List Str
    → Bytes
    → Bool
    → Result CryptoError ℕ × SessionCryptoManager
install_material_aliases s peer sessions root initiator = (
  ok s.next_handle,
  record {
    contexts =
        put_aliases peer sessions s.next_handle (retain (λ k h. not (str_beq k.0 peer)) s.contexts);
    heap = (s.next_handle, from_session_root root initiator) ∷ s.heap;
    next_handle = s.next_handle + 1;
  },
)

unfoldable pub get_context : SessionCryptoManager → Str → Str → Result CryptoError ℕ
get_context s peer session = elim (get (peer, session) s.contexts) [
  | none ↦ err e2ee_required
  | some handle ↦ ok handle
]

-- `retain(|_, current| !Arc::ptr_eq(current, &context))`.
unfoldable pub remove_session : SessionCryptoManager → Str → Str → SessionCryptoManager
remove_session s peer session = elim (get (peer, session) s.contexts) [
  | none ↦ s
  | some handle ↦ record s {
    contexts = retain (λ k h. not (h == handle)) (delete (peer, session) s.contexts);
  }
]
