-- ===== src/Crypto/Context.antt =====
-- `CryptoContext` of native/network_core/crates/network-core/src/crypto/context.rs. A method that
-- takes `&mut self` returns its result and the context after it, also where it fails. The
-- `#[cfg(test)]` nonce injection is left out.
pub mod Envelope
pub mod Receive
pub mod Replays
pub mod Once
pub mod Send
pub mod RoundTrip
pub mod Nonces
pub mod Budget
use ssh_mobile.Base.{
  ℕ, ◌+◌, ◌-◌, ◌≡◌, refl, Bool, true, false, ◌&&◌, ◌||◌, not, List, [], ◌∷◌, ◌++◌, Option, none,
  some, max, ltb, leb, ◌==◌, if◌then◌else◌, length, take, drop, slice, get_or, Result, ok, err,
  str_beq, str_eq,
}
use ssh_mobile.Base.Words.{checked_add, saturating_add, u64_mod, be64, of_be}
use ssh_mobile.Base.Sets.{contains}
use ssh_mobile.Crypto.Types.{
  Bytes, CryptoError, invalid_envelope, encryption, decryption, sequence_overflow, replay_detected,
  key_epoch_unavailable, nonce_prefix_mismatch, initiator_to_responder_info,
  responder_to_initiator_info, nonce_prefix_info, envelope_magic, envelope_version, gcm_nonce_bytes,
  gcm_tag_bytes, envelope_header_bytes, replay_window_capacity, max_retained_key_epochs,
  max_messages_per_key, max_bytes_per_key, nonce_prefix_bytes, CryptoSuite,
  hkdf_sha256_aes256gcm_v1, suite_code, suite_from_code, Primitives, derive_material, cipher,
}
use ssh_mobile.Crypto.Replay.{ReplayWindow, new_window, reserve, accept_received}

pub record CryptoContext : Type 0 where
  pub suite : CryptoSuite
  pub root_key : Bytes
  pub tx_info : Bytes
  pub rx_info : Bytes
  pub send_epoch : ℕ
  pub receive_epoch : ℕ
  pub send_counter : ℕ
  pub messages_in_epoch : ℕ
  pub bytes_in_epoch : ℕ
  pub send_window : ReplayWindow
  pub receive_window : ReplayWindow

unfoldable pub from_session_root : Bytes → Bool → CryptoContext
from_session_root root initiator = record {
  suite = hkdf_sha256_aes256gcm_v1;
  root_key = root;
  tx_info = if initiator then initiator_to_responder_info else responder_to_initiator_info;
  rx_info = if initiator then responder_to_initiator_info else initiator_to_responder_info;
  send_epoch = 0;
  receive_epoch = 0;
  send_counter = 0;
  messages_in_epoch = 0;
  bytes_in_epoch = 0;
  send_window = new_window replay_window_capacity;
  receive_window = new_window replay_window_capacity;
}

unfoldable pub current_epoch : CryptoContext → ℕ
current_epoch c = max c.send_epoch c.receive_epoch

-- A method on `&mut self`.
abbrev pub M : Type 0 → Type 0
M A = CryptoContext → Result CryptoError A × CryptoContext

abbrev pub then_do :
    {A B : Type 0}
    → Result CryptoError A × CryptoContext
    → (A → M B)
    → Result CryptoError B × CryptoContext
then_do (ok a, c) f = f a c
then_do (err e, c) f = (err e, c)

infixl 5 ◌>>=◌ ◌>>◌
abbrev pub ◌>>=◌ : {A B : Type 0} → M A → (A → M B) → M B
◌>>=◌ m f c = then_do (m c) f

abbrev pub ◌>>◌ : {B : Type 0} → M (Unit {0}) → M B → M B
m >> k = m >>= λ _. k

abbrev pub pure : {A : Type 0} → A → M A
pure a c = (ok a, c)

abbrev pub lift : {A : Type 0} → Result CryptoError A → M A
lift r c = (r, c)

abbrev pub read : M CryptoContext
read c = (ok c, c)

abbrev pub fail_when : Bool → CryptoError → M (Unit {0})
fail_when true e c = (err e, c)
fail_when false e c = (ok tt, c)

abbrev pub or_error : {A : Type 0} → Option A → CryptoError → M A
or_error none e c = (err e, c)
or_error (some a) e c = (ok a, c)

-- A new epoch starts its nonces and its budget afresh.
abbrev pub in_epoch : ℕ → CryptoContext → CryptoContext
in_epoch next c = record c {
  send_epoch = next;
  send_counter = 0;
  messages_in_epoch = 0;
  bytes_in_epoch = 0;
}

unfoldable pub rotate_key : M ℕ
rotate_key c = elim (checked_add c.send_epoch 1) [
  | none ↦ (err sequence_overflow, c)
  | some next ↦ (ok next, in_epoch next c)
]

-- Whether the key has reached one of its limits for `size` more bytes.
abbrev pub is_spent : CryptoContext → ℕ → Bool
is_spent c size =
    leb max_messages_per_key c.messages_in_epoch || ltb (max_bytes_per_key - size) c.bytes_in_epoch

unfoldable pub rotate_if_spent : ℕ → M (Unit {0})
unfolding rotate_key
rotate_if_spent size c =
    if is_spent c size then then_do (rotate_key c) (λ _. pure tt) else (ok tt, c)

abbrev pub is_malformed : Bytes → Bool
is_malformed env =
    ltb (length env) (envelope_header_bytes + gcm_tag_bytes)
    || not (str_beq (take 4 env) envelope_magic)
    || not (get_or env 4 0 == envelope_version)

abbrev pub is_unavailable : CryptoContext → ℕ → Bool
is_unavailable c epoch =
    ltb (saturating_add c.receive_epoch 1) epoch
    || leb max_retained_key_epochs (c.receive_epoch - epoch)

-- `u64::from_be_bytes(envelope[6..14])` and `envelope[14..26]`.
abbrev pub env_epoch : Bytes → ℕ
env_epoch env = of_be (slice env 6 8)

abbrev pub env_nonce : Bytes → Bytes
env_nonce env = slice env 14 gcm_nonce_bytes

-- The suite code is unknown, or not that of the context, which has the only suite.
abbrev pub is_foreign : Bytes → Bool
is_foreign env = elim (suite_from_code (get_or env 5 0)) [
  | none ↦ true
  | some hkdf_sha256_aes256gcm_v1 ↦ false
]

abbrev pub envelope : CryptoSuite → ℕ → Bytes → Bytes → Bytes
envelope suite epoch nonce sealed =
    envelope_magic ++ (envelope_version ∷ (suite_code suite ∷ (be64 epoch ++ (nonce ++ sealed))))

module _ (p : Primitives) where
  unfoldable pub epoch_key : CryptoContext → Bytes → ℕ → Result CryptoError Bytes
  epoch_key c info epoch = derive_material p c.root_key [] (info ++ be64 epoch)

  unfoldable pub nonce_prefix : CryptoContext → Bytes → ℕ → Result CryptoError Bytes
  nonce_prefix c info epoch = elim (epoch_key c info epoch) [
    | err e ↦ err e
    | ok key ↦ derive_material p key [] nonce_prefix_info
  ]

  unfoldable pub next_nonce : M Bytes
  next_nonce c = elim (checked_add c.send_counter 1) [
    | none ↦ (err sequence_overflow, c)
    | some next ↦
        let c' = record c { send_counter = next } in
        elim (nonce_prefix c' c'.tx_info c'.send_epoch) [
          | err e ↦ (err e, c')
          | ok prefix ↦ (ok (take nonce_prefix_bytes prefix ++ be64 c.send_counter), c')
        ]
  ]

  unfoldable pub seal_with : Bytes → Bytes → Bytes → Bytes → Result CryptoError Bytes
  seal_with key nonce aad text = elim (cipher key) [
    | err e ↦ err e
    | ok k ↦ elim (p.seal k nonce aad text) [ none ↦ err encryption | some sealed ↦ ok sealed ]
  ]

  unfoldable pub unseal_with : Bytes → Bytes → Bytes → Bytes → Result CryptoError Bytes
  unseal_with key nonce aad sealed = elim (cipher key) [
    | err e ↦ err e
    | ok k ↦ elim (p.unseal k nonce aad sealed) [ none ↦ err decryption | some text ↦ ok text ]
  ]

  unfoldable pub encrypt_with_nonce : Bytes → Bytes → Bytes → M Bytes
  encrypt_with_nonce aad text nonce c =
      let (reserved, window) = reserve c.send_window nonce in
      let c' = record c { send_window = window } in
      then_do (reserved, c')
        (λ _. do
          key ← lift (epoch_key c' c'.tx_info c'.send_epoch)
          sealed ← lift (seal_with key nonce aad text)
          pure (envelope c'.suite c'.send_epoch nonce sealed))

  -- `checked_add` on the two budgets of the key.
  unfoldable pub count_message : ℕ → M (Unit {0})
  count_message size c = elim (checked_add c.messages_in_epoch 1) [
    | none ↦ (err sequence_overflow, c)
    | some messages ↦
        let c' = record c { messages_in_epoch = messages } in
        elim (checked_add c'.bytes_in_epoch size) [
          | none ↦ (err sequence_overflow, c')
          | some bytes ↦ (ok tt, record c' { bytes_in_epoch = bytes })
        ]
  ]

  unfoldable pub encrypt : Bytes → Bytes → M Bytes
  encrypt aad text = do
    fail_when (leb u64_mod (length text)) sequence_overflow
    rotate_if_spent (length text)
    nonce ← next_nonce
    sealed ← encrypt_with_nonce aad text nonce
    count_message (length text)
    pure sealed

  -- The part of `decrypt_internal` that changes nothing: the clear text, the nonce and the epoch.
  unfoldable pub open_envelope :
      CryptoContext → Bytes → Bytes → Result CryptoError (Bytes × Bytes × ℕ)
  open_envelope c aad env =
      if is_malformed env
      then err invalid_envelope
      else if is_foreign env
      then err invalid_envelope
      else if is_unavailable c (env_epoch env)
      then err key_epoch_unavailable
      else (elim (nonce_prefix c c.rx_info (env_epoch env)) [
        | err e ↦ err e
        | ok prefix ↦
            if not
              (str_beq (take nonce_prefix_bytes (env_nonce env)) (take nonce_prefix_bytes prefix))
            then err nonce_prefix_mismatch
            else (elim (epoch_key c c.rx_info (env_epoch env)) [
              | err e ↦ err e
              | ok key ↦
                  elim (unseal_with key (env_nonce env) aad (drop envelope_header_bytes env)) [
                    | err e ↦ err e
                    | ok clear ↦ ok (clear, env_nonce env, env_epoch env)
                  ]
            ])
      ])

  -- The replay window, after the envelope has been authenticated.
  unfoldable pub admit_nonce : Bytes → Bool → M (Unit {0})
  admit_nonce nonce allow_replay c =
      if contains c.receive_window.seen nonce
      then (if allow_replay then (ok tt, c) else (err replay_detected, c))
      else (let (accepted, window) = accept_received c.receive_window nonce in
          (accepted, record c { receive_window = window }))

  unfoldable pub decrypt_internal : Bytes → Bytes → Bool → M Bytes
  decrypt_internal aad env allow_replay c = elim (open_envelope c aad env) [
    | err e ↦ (err e, c)
    | ok (clear, nonce, epoch) ↦ then_do (admit_nonce nonce allow_replay c) (λ _ c'.
        (ok clear, if ltb c'.receive_epoch epoch then record c' { receive_epoch = epoch } else c'))
  ]

  unfoldable pub decrypt : Bytes → Bytes → M Bytes
  decrypt aad env = decrypt_internal aad env false

  -- For Delivery: a duplicate frame is authenticated and returned once more.
  unfoldable pub decrypt_for_delivery : Bytes → Bytes → M Bytes
  decrypt_for_delivery aad env = decrypt_internal aad env true
