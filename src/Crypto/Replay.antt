-- ===== src/Crypto/Replay.antt =====
-- The nonce window of native/network_core/crates/network-core/src/crypto/context.rs.
pub mod History
use ssh_mobile.Base.{
  ℕ, ◌+◌, ◌≡◌, refl, Bool, true, false, List, [], ◌∷◌, ◌++◌, max, Result, ok, err, if◌then◌else◌,
  str_eq,
}
use ssh_mobile.Base.Sets.{contains, evict}
use ssh_mobile.Crypto.Types.{Bytes, CryptoError, nonce_reuse, replay_detected}

pub record ReplayWindow : Type 0 where
  pub capacity : ℕ
  pub seen : List Bytes
  pub order : List Bytes

unfoldable pub new_window : ℕ → ReplayWindow
new_window capacity = record { capacity = max capacity 1; seen = []; order = [] }

-- `&mut self` methods return what they return and the window after.
unfoldable pub reserve : ReplayWindow → Bytes → Result CryptoError (Unit {0}) × ReplayWindow
reserve w nonce =
    if contains w.seen nonce
    then (err nonce_reuse, w)
    else (let (seen, order) = evict w.capacity (nonce ∷ w.seen) (w.order ++ (nonce ∷ [])) in
        (ok tt, record w { seen = seen; order = order }))

-- `map_err` of the error of `reserve`.
unfoldable pub as_replay :
    Result CryptoError (Unit {0}) × ReplayWindow → Result CryptoError (Unit {0}) × ReplayWindow
as_replay (ok u, w) = (ok u, w)
as_replay (err e, w) = (err replay_detected, w)

unfoldable pub accept_received : ReplayWindow → Bytes → Result CryptoError (Unit {0}) × ReplayWindow
accept_received w nonce =
    if contains w.seen nonce then (err replay_detected, w) else as_replay (reserve w nonce)
