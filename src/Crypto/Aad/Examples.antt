-- ===== src/Crypto/Aad/Examples.antt =====
-- Associated data of native/network_core/crates/network-core/src/crypto/session.rs.
use ssh_mobile.Base.{◌≡◌, refl, [], ◌∷◌, arith}
use ssh_mobile.Crypto.Aad.Binding.{Metadata, IsInRange, data_message_aad_binds}

abbrev chat : Metadata
chat = record {
  session = 1 ∷ [];
  channel = 2 ∷ 3 ∷ [];
  message = 4 ∷ [];
  sequence = 5;
  epoch = 1;
  policy = 2;
}

chat-IsInRange : IsInRange chat
chat-IsInRange = record {
  session_small = omega arith;
  channel_small = omega arith;
  message_small = omega arith;
  sequence_small = omega arith;
  epoch_small = omega arith;
  policy_small = omega arith;
}

data_message_aad_binds_example :
    (chat.session ≡ chat.session)
    × (chat.channel ≡ chat.channel)
    × (chat.message ≡ chat.message)
    × (chat.sequence ≡ chat.sequence)
    × (chat.epoch ≡ chat.epoch)
    × (chat.policy ≡ chat.policy)
data_message_aad_binds_example = data_message_aad_binds chat chat chat-IsInRange chat-IsInRange refl
