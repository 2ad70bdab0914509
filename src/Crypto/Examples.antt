-- ===== src/Crypto/Examples.antt =====
-- A run of native/network_core/crates/network-core/src/crypto/context.rs with primitives that do
-- not encrypt.
use ssh_mobile.Base.{
  ℕ, ◌-◌, ◌≡◌, refl, true, false, List, [], ◌∷◌, ◌++◌, Option, if◌then◌else◌, some, arith, length,
  take, take-append, ok, err, ◌≤◌, str_eq, length-append,
}
use ssh_mobile.Base.Words.{be64, of_be}
use ssh_mobile.Base.Sets.{contains, recent, evict}
use ssh_mobile.Crypto.Types.{
  Bytes, Primitives, IsAead, replay_detected, invalid_envelope, max_messages_per_key,
  max_bytes_per_key, derive_material, cipher, suite_code, suite_from_code,
}
use ssh_mobile.Crypto.Replay.{accept_received, new_window, reserve, as_replay}
use ssh_mobile.Crypto.Replay.History.{receive_all, receive_all-exact, new_window-IsCoherent}
use ssh_mobile.Crypto.Context.{
  CryptoContext, from_session_root, encrypt, decrypt, decrypt_internal, env_nonce, env_epoch,
  is_unavailable, rotate_if_spent, next_nonce, encrypt_with_nonce, count_message, epoch_key,
  nonce_prefix, seal_with, unseal_with, admit_nonce, open_envelope,
}
use ssh_mobile.Crypto.Context.Receive.{accepted}
use ssh_mobile.Crypto.Context.Budget.{
  messages_under, bytes_under, nothing_sealed, seals, Seals-within_budget,
}
use ssh_mobile.Crypto.Context.Once.{decrypt_each, decrypt_once}
use ssh_mobile.Crypto.Context.RoundTrip.{decrypt-encrypt}
use ssh_mobile.Crypto.Context.Nonces.{encrypt-no_nonce_reuse, none_sent}

abbrev zeros : ℕ → Bytes
zeros ℕ.zero = []
zeros (ℕ.suc n) = 0 ∷ zeros n

abbrev clear_primitives : Primitives
clear_primitives = record {
  hkdf = λ ikm salt info. some (zeros 32);
  seal = λ key nonce aad text. some (text ++ zeros 16);
  unseal = λ key nonce aad sealed. some (take (length sealed - 16) sealed);
}

opens :
    (text sealed : Bytes)
    → ◌≡◌ {A = Option Bytes} (some (text ++ zeros 16)) (some sealed)
    → ◌≡◌ {A = Option Bytes} (some (take (length sealed - 16) sealed)) (some text)
opens text sealed h =
    let same : sealed ≡ text ++ zeros 16 = cc in
    let size : length (text ++ zeros 16) - 16 ≡ length text =
      omega (arith, length-append text (zeros 16)) in
    rw same (rw (take-append text (zeros 16) (length (text ++ zeros 16) - 16) size))

clear_primitives-IsAead : IsAead clear_primitives
clear_primitives-IsAead = record {
  hkdf_fills = λ ikm salt info key h. (let same : key ≡ zeros 32 = cc in rw same);
  seal_appends_tag = λ key nonce aad text sealed h.
      (let same : sealed ≡ text ++ zeros 16 = cc in rw (same, length-append text (zeros 16)));
  unseal_seal = λ key nonce aad text sealed h. opens text sealed h;
}

abbrev three_nonces : List Bytes
three_nonces = (1 ∷ []) ∷ (2 ∷ []) ∷ (3 ∷ []) ∷ []

receive_all_example : (accept_received (receive_all (new_window 2) three_nonces).0 (3 ∷ [])).0 ≡ (
    if contains (recent 2 (receive_all (new_window 2) three_nonces).1) (3 ∷ [])
    then err replay_detected
    else ok tt)
receive_all_example = receive_all-exact 2 three_nonces (3 ∷ [])

abbrev alice : CryptoContext
alice = from_session_root (zeros 32) true

abbrev bob : CryptoContext
bob = from_session_root (zeros 32) false

abbrev hello : Bytes
hello = 104 ∷ 105 ∷ []

-- The envelope of the message with that number.
abbrev envelope_of : ℕ → Bytes
envelope_of n =
    (83 ∷ 77 ∷ 69 ∷ 49 ∷ 1 ∷ 1 ∷ zeros 8) ++ (zeros 4 ++ (zeros 7 ++ (n ∷ (hello ++ zeros 16))))

abbrev alice_later : CryptoContext
alice_later = (encrypt clear_primitives [] hello alice).1

abbrev bob_later : CryptoContext
bob_later = (decrypt clear_primitives [] (envelope_of 0) bob).1

encrypts : encrypt clear_primitives [] hello alice ≡ (ok (envelope_of 0), alice_later)
unfolding encrypt rotate_if_spent next_nonce encrypt_with_nonce count_message epoch_key nonce_prefix
    seal_with derive_material cipher reserve from_session_root new_window suite_code contains evict
    be64
encrypts = refl

decrypts : decrypt clear_primitives [] (envelope_of 0) bob ≡ (ok hello, bob_later)
unfolding decrypt decrypt_internal admit_nonce open_envelope epoch_key nonce_prefix unseal_with
    derive_material cipher reserve accept_received as_replay from_session_root new_window
    suite_from_code contains evict of_be
decrypts = refl

alice_again :
    encrypt clear_primitives [] hello alice_later
    ≡ (ok (envelope_of 1), (encrypt clear_primitives [] hello alice_later).1)
unfolding encrypt rotate_if_spent next_nonce encrypt_with_nonce count_message epoch_key nonce_prefix
    seal_with derive_material cipher reserve from_session_root new_window suite_code contains evict
    be64
alice_again = refl

bob_window : bob.receive_window ≡ new_window 4096
unfolding from_session_root
bob_window = refl

bob_covers : is_unavailable bob alice_later.send_epoch ≡ false
unfolding encrypt rotate_if_spent next_nonce encrypt_with_nonce count_message epoch_key nonce_prefix
    seal_with derive_material cipher reserve from_session_root new_window suite_code contains evict
    be64
bob_covers = refl

bob_new : contains bob.receive_window.seen (env_nonce (envelope_of 0)) ≡ false
unfolding from_session_root new_window contains
bob_new = refl

abbrev zero_fields :
    (alice.send_epoch ≡ 0)
    × (alice.messages_in_epoch ≡ 0)
    × (alice.bytes_in_epoch ≡ 0)
    × (bob.root_key ≡ alice.root_key)
    × (bob.rx_info ≡ alice.tx_info)
unfolding from_session_root
zero_fields = (refl, refl, refl, refl, refl)

-- Too short for a header.
refuses : decrypt_internal clear_primitives [] (zeros 8) false bob ≡ (err invalid_envelope, bob)
unfolding decrypt_internal open_envelope
refuses = refl

decrypt_once_example : ¬ (
    (decrypt clear_primitives [] (envelope_of 0) (
      decrypt_each clear_primitives bob_later
        (record { allow_replay = true; aad = []; envelope = envelope_of 1 } ∷ []))).0
    ≡ ok hello)
unfolding new_window
decrypt_once_example =
    decrypt_once clear_primitives bob bob_later [] [] (envelope_of 0) hello hello
      (record { allow_replay = true; aad = []; envelope = envelope_of 1 } ∷ [])
      (rw bob_window (new_window-IsCoherent 4096)) decrypts (rw bob_window (omega arith))

decrypt-encrypt_example :
    decrypt clear_primitives [] (envelope_of 0) bob
    ≡ (ok hello, accepted bob (env_nonce (envelope_of 0)) alice_later.send_epoch)
decrypt-encrypt_example =
    decrypt-encrypt clear_primitives [] hello (envelope_of 0) alice alice_later bob
      clear_primitives-IsAead encrypts (omega (arith, zero_fields.0)) zero_fields.3 zero_fields.4
      bob_covers bob_new

abbrev sealed_log : List (ℕ × ℕ)
sealed_log = (env_epoch (envelope_of 1), 2) ∷ (env_epoch (envelope_of 0), 2) ∷ []

Seals-within_budget_example :
    (messages_under 0 sealed_log ≤ max_messages_per_key)
    × (bytes_under 0 sealed_log ≤ max_bytes_per_key)
Seals-within_budget_example =
    Seals-within_budget clear_primitives (zeros 32) true sealed_log
      (encrypt clear_primitives [] hello alice_later).1 0 clear_primitives-IsAead
      (seals [] hello (envelope_of 1) (encrypt clear_primitives [] hello alice_later).1
        (seals [] hello (envelope_of 0) alice_later nothing_sealed encrypts) alice_again)
      (omega arith, (omega arith, tt))

encrypt-no_nonce_reuse_example : ¬ (
    (env_epoch (envelope_of 0) ≡ env_epoch (envelope_of 1))
    × (env_nonce (envelope_of 0) ≡ env_nonce (envelope_of 1)))
encrypt-no_nonce_reuse_example =
    encrypt-no_nonce_reuse clear_primitives [] hello (envelope_of 0) [] hello (envelope_of 1) alice
      alice_later alice_later (encrypt clear_primitives [] hello alice_later).1
      clear_primitives-IsAead (omega (arith, zero_fields.0)) encrypts none_sent alice_again
