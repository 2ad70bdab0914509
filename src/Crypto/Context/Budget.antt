-- ===== src/Crypto/Context/Budget.antt =====
-- What a sender seals under one key.
use ssh_mobile.Base.{
  ℕ, ◌+◌, ◌≤◌, ◌<◌, ◌≡◌, refl, ap, ◌∙◌, Bool, false, List, [], ◌∷◌, ok, inl, inr, ◌==◌, Bool-cases,
  if◌then◌else◌, arith, length, All,
}
use ssh_mobile.Base.Words.{u64_mod}
use ssh_mobile.Crypto.Types.{Bytes, Primitives, IsAead, max_messages_per_key, max_bytes_per_key}
use ssh_mobile.Crypto.Context.{CryptoContext, from_session_root, encrypt, env_epoch}
use ssh_mobile.Crypto.Context.Send.{encrypt-Sent, Rotated}
use ssh_mobile.Crypto.Context.Nonces.{encrypt-numbered}

-- A run of successful calls of `encrypt`, with the epoch that each envelope names and the size of its
-- text, newest first.
pub data Seals (p : Primitives) (c : CryptoContext) : List (ℕ × ℕ) → CryptoContext → Type 0 where
  nothing_sealed : Seals p c [] c
  seals :
      {log : List (ℕ × ℕ)} {d : CryptoContext} (aad text env : Bytes) (final : CryptoContext)
      → Seals p c log d
      → encrypt p aad text d ≡ (ok env, final)
      → Seals p c ((env_epoch env, length text) ∷ log) final

abbrev pub messages_under : ℕ → List (ℕ × ℕ) → ℕ
messages_under epoch [] = 0
messages_under epoch ((e, size) ∷ log) =
    let rest = messages_under epoch log in if e == epoch then rest + 1 else rest

abbrev pub bytes_under : ℕ → List (ℕ × ℕ) → ℕ
bytes_under epoch [] = 0
bytes_under epoch ((e, size) ∷ log) =
    let rest = bytes_under epoch log in if e == epoch then rest + size else rest

abbrev pub FitsKey : ℕ × ℕ → Type 0
FitsKey x = x.1 ≤ max_bytes_per_key

-- The counters of the context are those of its epoch, and every epoch is within its budget.
record IsBudgeted (log : List (ℕ × ℕ)) (c : CryptoContext) : Type 0 where
  word : c.send_epoch < u64_mod
  messages : messages_under c.send_epoch log ≡ c.messages_in_epoch
  bytes : bytes_under c.send_epoch log ≡ c.bytes_in_epoch
  later : (e : ℕ) → c.send_epoch < e → (messages_under e log ≡ 0) × (bytes_under e log ≡ 0)
  within :
      (e : ℕ)
      → (messages_under e log ≤ max_messages_per_key) × (bytes_under e log ≤ max_bytes_per_key)

-- The counters before the message is counted.
Rotated-counters :
    (log : List (ℕ × ℕ)) (size : ℕ) (c d : CryptoContext)
    → Rotated size c d
    → IsBudgeted log c
    → size ≤ max_bytes_per_key
    → (messages_under d.send_epoch log ≡ d.messages_in_epoch)
      × (bytes_under d.send_epoch log ≡ d.bytes_in_epoch)
      × (c.send_epoch ≤ d.send_epoch)
      × (d.messages_in_epoch + 1 ≤ max_messages_per_key)
      × (d.bytes_in_epoch + size ≤ max_bytes_per_key)
Rotated-counters log size c d (inl (same, unspent)) b fits =
    let m = b.messages in let n = b.bytes in rw same (m, n, omega arith, ground arith, ground arith)
Rotated-counters log size c d (inr (next, small)) b fits =
    let z = b.later (c.send_epoch + 1) (omega arith) in
    rw next (z.0, z.1, omega arith, omega arith, omega arith)

sealed-IsBudgeted :
    (log : List (ℕ × ℕ)) (size : ℕ) (c d final : CryptoContext)
    → Rotated size c d
    → IsBudgeted log c
    → size ≤ max_bytes_per_key
    → final.send_epoch < u64_mod
    → final.send_epoch ≡ d.send_epoch
    → final.messages_in_epoch ≡ d.messages_in_epoch + 1
    → final.bytes_in_epoch ≡ d.bytes_in_epoch + size
    → IsBudgeted ((final.send_epoch, size) ∷ log) final
sealed-IsBudgeted log size c d final r b fits top epoch counted added =
    let (m, n, up, few, small) = Rotated-counters log size c d r b fits in
    let m' : messages_under final.send_epoch log ≡ d.messages_in_epoch = rw epoch m in
    let n' : bytes_under final.send_epoch log ≡ d.bytes_in_epoch = rw epoch n in
    record {
      word = top;
      messages = ground arith;
      bytes = ground arith;
      later = λ e h.
          let z = b.later e (omega arith) in
          let other : (final.send_epoch == e) ≡ false = ground arith in rw other z;
      within = λ e. elim (Bool-cases (final.send_epoch == e)) [
        | inl here ↦
            let same : e ≡ final.send_epoch = ground arith in
            let m'' : messages_under e log ≡ d.messages_in_epoch =
              ap (λ x. messages_under x log) same ∙ m' in
            let n'' : bytes_under e log ≡ d.bytes_in_epoch =
              ap (λ x. bytes_under x log) same ∙ n' in
            rw (here, m'', n'') (few, small)
        | inr other ↦ rw other (b.within e)
      ];
    }

Seals-IsBudgeted :
    (p : Primitives) {c : CryptoContext} {log : List (ℕ × ℕ)} {d : CryptoContext}
    → IsAead p
    → IsBudgeted [] c
    → Seals p c log d
    → All FitsKey log
    → IsBudgeted log d
Seals-IsBudgeted p law start nothing_sealed fits = start
Seals-IsBudgeted p {c = c} law start (seals {log} {d} aad text env final before h) fits =
    let b = Seals-IsBudgeted p law start before fits.1 in
    let s = encrypt-Sent p aad text env d final h in
    let (named, _, top, _) = encrypt-numbered p aad text env d final law h b.word in
    rw named (
      sealed-IsBudgeted log (length text) d s.d final s.rotated b fits.0 top
        (ap (λ x. x.send_epoch) s.ends) (ap (λ x. x.messages_in_epoch) s.ends)
        (ap (λ x. x.bytes_in_epoch) s.ends))

root-IsBudgeted :
    (root : Bytes) (initiator : Bool) → IsBudgeted [] (from_session_root root initiator)
unfolding from_session_root
root-IsBudgeted root initiator = record {
  word = omega arith;
  messages = refl;
  bytes = refl;
  later = λ e h. (refl, refl);
  within = λ e. (omega arith, omega arith);
}

-- However much a new context seals, and however often it rotates, the envelopes that name one key
-- epoch are within the limits of a key, their number and the bytes of their texts, when no single
-- text is longer than the limit.
pub Seals-within_budget :
    (p : Primitives) (root : Bytes) (initiator : Bool) (log : List (ℕ × ℕ)) (d : CryptoContext)
    (epoch : ℕ)
    → IsAead p
    → Seals p (from_session_root root initiator) log d
    → All FitsKey log
    → (messages_under epoch log ≤ max_messages_per_key)
      × (bytes_under epoch log ≤ max_bytes_per_key)
Seals-within_budget p root initiator log d epoch law run fits =
    (Seals-IsBudgeted p law (root-IsBudgeted root initiator) run fits).within epoch
