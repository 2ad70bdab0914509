-- ===== src/Crypto/Aad/Binding.antt =====
-- What associated data bind.
use ssh_mobile.Base.{
  ℕ, ◌≡◌, ◌<◌, refl, sym, ap, ◌∙◌, ◌++◌, length, take, drop, take-append, drop-append,
}
use ssh_mobile.Base.Words.{
  be32, be64, of_be, u64_mod, of_be-be32, of_be-be64, length-be32, length-be64,
}
use ssh_mobile.Crypto.Types.{Bytes}
use ssh_mobile.Crypto.Aad.{file_chunk_aad_prefix, len_prefixed, data_message_aad, file_chunk_aad}

-- Two parts of the same sizes that agree as a whole agree in each part.
split :
    (xs ys as' bs : Bytes) → length xs ≡ length ys → xs ++ as' ≡ ys ++ bs → (xs ≡ ys) × (as' ≡ bs)
split xs ys as' bs size e = (
  sym (take-append xs as' (length xs) refl)
      ∙ ap (take (length xs)) e
      ∙ take-append ys bs (length xs) size,
  sym (drop-append xs as' (length xs) refl)
      ∙ ap (drop (length xs)) e
      ∙ drop-append ys bs (length xs) size,
)

len_prefixed-split :
    (xs ys rest rest' : Bytes)
    → length xs < 4294967296
    → length ys < 4294967296
    → len_prefixed xs rest ≡ len_prefixed ys rest'
    → (xs ≡ ys) × (rest ≡ rest')
unfolding len_prefixed
len_prefixed-split xs ys rest rest' small small' e =
    let (sizes, bodies) =
      split (be32 (length xs)) (be32 (length ys)) (xs ++ rest) (ys ++ rest')
        (length-be32 (length xs) ∙ sym (length-be32 (length ys))) e in
    let size : length xs ≡ length ys =
      sym (of_be-be32 (length xs) small) ∙ ap of_be sizes ∙ of_be-be32 (length ys) small' in
    split xs ys rest rest' size bodies

be64-split :
    (n m : ℕ) (rest rest' : Bytes)
    → n < u64_mod
    → m < u64_mod
    → be64 n ++ rest ≡ be64 m ++ rest'
    → (n ≡ m) × (rest ≡ rest')
be64-split n m rest rest' small small' e =
    let (words, tails) =
      split (be64 n) (be64 m) rest rest' (length-be64 n ∙ sym (length-be64 m)) e in
    (sym (of_be-be64 n small) ∙ ap of_be words ∙ of_be-be64 m small', tails)

-- What the associated data of a message are made of.
pub record Metadata : Type 0 where
  pub session : Bytes
  pub channel : Bytes
  pub message : Bytes
  pub sequence : ℕ
  pub epoch : ℕ
  pub policy : ℕ

-- The lengths and the numbers fit their fields.
pub record IsInRange (m : Metadata) : Type 0 where
  pub session_small : length m.session < 4294967296
  pub channel_small : length m.channel < 4294967296
  pub message_small : length m.message < 4294967296
  pub sequence_small : m.sequence < u64_mod
  pub epoch_small : m.epoch < u64_mod
  pub policy_small : m.policy < 4294967296

abbrev pub aad_of : Metadata → Bytes
aad_of m = data_message_aad m.session m.channel m.message m.sequence m.epoch m.policy

-- Equal associated data of messages mean equal session, channel, message id, sequence, recovery
-- epoch and policy, when the lengths and the numbers fit their fields.
pub data_message_aad_binds :
    (m n : Metadata)
    → IsInRange m
    → IsInRange n
    → aad_of m ≡ aad_of n
    → (m.session ≡ n.session)
      × (m.channel ≡ n.channel)
      × (m.message ≡ n.message)
      × (m.sequence ≡ n.sequence)
      × (m.epoch ≡ n.epoch)
      × (m.policy ≡ n.policy)
unfolding data_message_aad
data_message_aad_binds m n v w e =
    let (session, e1) =
      len_prefixed-split m.session n.session _ _ v.session_small w.session_small e in
    let (channel, e2) =
      len_prefixed-split m.channel n.channel _ _ v.channel_small w.channel_small e1 in
    let (message, e3) =
      len_prefixed-split m.message n.message _ _ v.message_small w.message_small e2 in
    let (sequence, e4) =
      be64-split m.sequence n.sequence _ _ v.sequence_small w.sequence_small e3 in
    let (epoch, e5) = be64-split m.epoch n.epoch _ _ v.epoch_small w.epoch_small e4 in
    (
      session,
      channel,
      message,
      sequence,
      epoch,
      sym (of_be-be32 m.policy v.policy_small) ∙ ap of_be e5 ∙ of_be-be32 n.policy w.policy_small,
    )

-- Equal associated data of file chunks mean equal session, transfer, manifest and sequence, when
-- the lengths and the sequences fit their fields.
pub file_chunk_aad_binds :
    (s t h s' t' h' : Bytes) (q q' : ℕ)
    → length s < 4294967296
    → length s' < 4294967296
    → length t < 4294967296
    → length t' < 4294967296
    → length h < 4294967296
    → length h' < 4294967296
    → q < u64_mod
    → q' < u64_mod
    → file_chunk_aad s t h q ≡ file_chunk_aad s' t' h' q'
    → (s ≡ s') × (t ≡ t') × (h ≡ h') × (q ≡ q')
unfolding file_chunk_aad
file_chunk_aad_binds s t h s' t' h' q q' a a' b b' c c' d d' e =
    let (_, e0) = split file_chunk_aad_prefix file_chunk_aad_prefix _ _ refl e in
    let (session, e1) = len_prefixed-split s s' _ _ a a' e0 in
    let (transfer, e2) = len_prefixed-split t t' _ _ b b' e1 in
    let (manifest, e3) = len_prefixed-split h h' _ _ c c' e2 in
    (session, transfer, manifest, sym (of_be-be64 q d) ∙ ap of_be e3 ∙ of_be-be64 q' d')
