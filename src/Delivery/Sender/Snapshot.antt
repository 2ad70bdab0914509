-- ===== src/Delivery/Sender/Snapshot.antt =====
-- What `recover_peer` hands to the new connection.
use mathlib.Core.List.{Perm}
use mathlib.Core.List.Perm
use ssh_mobile.Base.{
  ℕ, ◌≤◌, ◌≡◌, refl, ap, List, [], ◌∷◌, arith, map, leb, if◌then◌else◌, Bool-cases, inl, inr, All,
  str_eq,
}
use ssh_mobile.Base.Maps.{put}
use ssh_mobile.Delivery.Keys.{Str, DeliveryIdentity}
use ssh_mobile.Delivery.Types.{PendingMessage, DeliveryStore}
use ssh_mobile.Delivery.Store.{HashOrder, is_expired}
use ssh_mobile.Delivery.Recovery.{
  of_peer, insert_by_sequence, sort_by_sequence, recovered, recover_each, recover_peer, next_epoch,
}

-- In the order of their sequences.
abbrev pub IsOrdered : List PendingMessage → Type 0
IsOrdered [] = Unit {0}
IsOrdered (m ∷ ms) = All (λ x. m.sequence ≤ x.sequence) ms × IsOrdered ms

All-insert :
    (n : ℕ) (m : PendingMessage) (xs : List PendingMessage)
    → n ≤ m.sequence
    → All (λ x. n ≤ x.sequence) xs
    → All (λ x. n ≤ x.sequence) (insert_by_sequence m xs)
unfolding insert_by_sequence
All-insert n m [] h a = (h, tt)
All-insert n m (x ∷ xs) h a = elim (Bool-cases (leb m.sequence x.sequence)) [
  | inl le ↦ rw le (h, a)
  | inr gt ↦ rw gt (a.0, All-insert n m xs h a.1)
]

All-weaken :
    (n k : ℕ) (xs : List PendingMessage)
    → n ≤ k
    → All (λ x. k ≤ x.sequence) xs
    → All (λ x. n ≤ x.sequence) xs
All-weaken n k [] h a = tt
All-weaken n k (x ∷ xs) h a = (omega (arith, a.0), All-weaken n k xs h a.1)

insert_by_sequence-IsOrdered :
    (m : PendingMessage) (xs : List PendingMessage)
    → IsOrdered xs
    → IsOrdered (insert_by_sequence m xs)
unfolding insert_by_sequence
insert_by_sequence-IsOrdered m [] o = (tt, tt)
insert_by_sequence-IsOrdered m (x ∷ xs) o = elim (Bool-cases (leb m.sequence x.sequence)) [
  | inl le ↦
      let below : m.sequence ≤ x.sequence = ground arith in
      rw le ((below, All-weaken m.sequence x.sequence xs below o.0), o)
  | inr gt ↦
      rw gt (All-insert x.sequence m xs (ground arith) o.0, insert_by_sequence-IsOrdered m xs o.1)
]

insert_by_sequence-perm :
    (m : PendingMessage) (xs : List PendingMessage) → Perm (insert_by_sequence m xs) (m ∷ xs)
unfolding insert_by_sequence
insert_by_sequence-perm m [] = Perm.refl _
insert_by_sequence-perm m (x ∷ xs) = elim (Bool-cases (leb m.sequence x.sequence)) [
  | inl le ↦ rw le (Perm.refl _)
  | inr gt ↦ rw gt (Perm.trans (Perm.cons x (insert_by_sequence-perm m xs)) (Perm.swap m x xs))
]

sort_by_sequence-IsOrdered : (ms : List PendingMessage) → IsOrdered (sort_by_sequence ms)
unfolding sort_by_sequence
sort_by_sequence-IsOrdered [] = tt
sort_by_sequence-IsOrdered (m ∷ ms) =
    insert_by_sequence-IsOrdered m (sort_by_sequence ms) (sort_by_sequence-IsOrdered ms)

sort_by_sequence-perm : (ms : List PendingMessage) → Perm (sort_by_sequence ms) ms
unfolding sort_by_sequence
sort_by_sequence-perm [] = Perm.refl _
sort_by_sequence-perm (m ∷ ms) =
    Perm.trans (insert_by_sequence-perm m (sort_by_sequence ms))
      (Perm.cons m (sort_by_sequence-perm ms))

-- The messages among the given entries that have not expired.
abbrev pub live : ℕ → List (DeliveryIdentity × PendingMessage) → List PendingMessage
live now [] = []
live now ((k, m) ∷ rest) =
    let others = live now rest in if is_expired m now then others else m ∷ others

recover_each-live :
    (now epoch : ℕ) (ms : List (DeliveryIdentity × PendingMessage)) (s : DeliveryStore)
    → (recover_each now epoch ms s).messages ≡ map (recovered now epoch) (live now ms)
unfolding recover_each
recover_each-live now epoch [] s = refl
recover_each-live now epoch ((k, m) ∷ rest) s = elim (Bool-cases (is_expired m now)) [
  | inl late ↦ rw late (recover_each-live now epoch rest s)
  | inr alive ↦ rw alive (ap (◌∷◌ (recovered now epoch m)) (recover_each-live now epoch rest _))
]

-- The recovery batch of a peer holds each pending message of that peer that has not expired, once,
-- with its own message id and payload, as queued under the new connection generation, in the order
-- of the sequences.
pub recover_peer-snapshot :
    (o : HashOrder) (s : DeliveryStore) (peer : Str) (now : ℕ)
    → Perm
        (recover_peer o s peer now).0.messages
        (map (recovered now (next_epoch s peer)) (live now (of_peer peer s.pending)))
      × IsOrdered (recover_peer o s peer now).0.messages
      × ((recover_peer o s peer now).0.recovery_epoch ≡ next_epoch s peer)
unfolding recover_peer
recover_peer-snapshot o s peer now = (
  rw
      (← recover_each-live now (next_epoch s peer) (of_peer peer s.pending)
        (record s { recovery_epochs = put peer (next_epoch s peer) s.recovery_epochs }))
      (sort_by_sequence-perm _),
  sort_by_sequence-IsOrdered _,
  refl,
)
