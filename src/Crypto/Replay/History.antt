-- ===== src/Crypto/Replay/History.antt =====
-- The replay window against the history of nonces that it accepted.
use ssh_mobile.Base.{
  ℕ, ◌≤◌, ◌≡◌, refl, sym, ap, ◌∙◌, true, false, List, [], ◌∷◌, ◌++◌, max, Result, ok, err,
  if◌then◌else◌, Bool-cases, inl, inr, drop_nil, ◌-◌, arith, append_assoc, append-nil,
}
use ssh_mobile.Base.Sets.{
  join-IsWindow, contains, IsWindow, recent, evict-IsWindow, evict-recent, recent-recent,
}
use ssh_mobile.Base.{str_eq}
use ssh_mobile.Crypto.Types.{Bytes, CryptoError, nonce_reuse, replay_detected}
use ssh_mobile.Crypto.Replay.{ReplayWindow, new_window, reserve, as_replay, accept_received}

-- The set and the queue of a window agree, and the window has room for a nonce.
pub record IsCoherent (w : ReplayWindow) : Type 0 where
  pub window : IsWindow w.seen w.order
  pub room : 1 ≤ w.capacity

pub new_window-IsCoherent : (capacity : ℕ) → IsCoherent (new_window capacity)
unfolding new_window
new_window-IsCoherent capacity = record {
  window = record { agree = λ k. refl; distinct = tt };
  room = omega arith;
}

reserve_fresh :
    (w : ReplayWindow) (nonce : Bytes)
    → IsCoherent w
    → contains w.order nonce ≡ false
    → ((reserve w nonce).0 ≡ ok tt)
      × IsCoherent (reserve w nonce).1
      × ((reserve w nonce).1.order ≡ recent w.capacity (w.order ++ (nonce ∷ [])))
      × ((reserve w nonce).1.capacity ≡ w.capacity)
unfolding reserve
reserve_fresh w nonce c new =
    let unseen : contains w.seen nonce ≡ false = c.window.agree nonce ∙ new in
    let joined = join-IsWindow w.seen w.order nonce c.window unseen in
    rw unseen (
      refl,
      record { window = evict-IsWindow w.capacity _ _ joined; room = c.room },
      evict-recent w.capacity (nonce ∷ w.seen) (w.order ++ (nonce ∷ [])),
      refl,
    )

reserve_seen :
    (w : ReplayWindow) (nonce : Bytes)
    → IsCoherent w
    → contains w.order nonce ≡ true
    → reserve w nonce ≡ (err nonce_reuse, w)
unfolding reserve
reserve_seen w nonce c old = rw (c.window.agree nonce ∙ old)

as_replay_ok : (x : Result CryptoError (Unit {0}) × ReplayWindow) → x.0 ≡ ok tt → as_replay x ≡ x
unfolding as_replay
as_replay_ok (ok u, w) h = refl
as_replay_ok (err e, w) h = cc

-- On a coherent window a nonce is refused exactly when the queue holds it, and otherwise the
-- queue takes it and keeps its last `capacity` entries.
pub record Accepts (w : ReplayWindow) (nonce : Bytes) : Type 0 where
  pub answer :
      (accept_received w nonce).0 ≡ (if contains w.order nonce then err replay_detected else ok tt)
  pub coherent : IsCoherent (accept_received w nonce).1
  pub order :
      (accept_received w nonce).1.order
      ≡ (if contains w.order nonce then w.order else recent w.capacity (w.order ++ (nonce ∷ [])))
  pub capacity : (accept_received w nonce).1.capacity ≡ w.capacity

pub accept_received-Accepts : (w : ReplayWindow) (nonce : Bytes) → IsCoherent w → Accepts w nonce
unfolding accept_received
accept_received-Accepts w nonce c = elim (Bool-cases (contains w.order nonce)) [
  | inl old ↦
      let seen : contains w.seen nonce ≡ true = c.window.agree nonce ∙ old in
      record {
        answer = rw (seen, old);
        coherent = rw seen c;
        order = rw (seen, old);
        capacity = rw seen;
      }
  | inr new ↦
      let unseen : contains w.seen nonce ≡ false = c.window.agree nonce ∙ new in
      let (done, coherent, order, capacity) = reserve_fresh w nonce c new in
      let same = as_replay_ok (reserve w nonce) done in
      record {
        answer = rw (unseen, new, same) done;
        coherent = rw (unseen, same) coherent;
        order = rw (unseen, new, same) order;
        capacity = rw (unseen, same) capacity;
      }
]

-- The nonces that a window accepts, in order, and the window after them.
unfoldable pub receive_all : ReplayWindow → List Bytes → ReplayWindow × List Bytes
receive_all w [] = (w, [])
receive_all w (n ∷ ns) =
    let (after, accepted) = receive_all (accept_received w n).1 ns in
    (after, elim (accept_received w n).0 [ ok u ↦ n ∷ accepted | err e ↦ accepted ])

-- `past` is what the window accepted before.
receive_all-order :
    (w : ReplayWindow) (ns past : List Bytes)
    → IsCoherent w
    → w.order ≡ recent w.capacity past
    → IsCoherent (receive_all w ns).0
      × ((receive_all w ns).0.capacity ≡ w.capacity)
      × ((receive_all w ns).0.order ≡ recent w.capacity (past ++ (receive_all w ns).1))
unfolding receive_all
receive_all-order w [] past c h = (c, refl, rw append-nil h)
receive_all-order w (n ∷ ns) past c h =
    let a = accept_received-Accepts w n c in
    let after : ReplayWindow = (accept_received w n).1 in
    let accepted : List Bytes = (receive_all after ns).1 in
    elim (Bool-cases (contains w.order n)) [
      | inl old ↦
          let answer : (accept_received w n).0 ≡ err replay_detected = a.answer ∙ rw old in
          let order : after.order ≡ w.order = a.order ∙ rw old in
          let (coherent, capacity, held) =
            receive_all-order after ns past a.coherent
              (order ∙ h ∙ ap (λ k. recent k past) (sym a.capacity)) in
          (
            coherent,
            capacity ∙ a.capacity,
            rw (answer, receive_all) (held ∙ ap (λ k. recent k (past ++ accepted)) a.capacity),
          )
      | inr new ↦
          let answer : (accept_received w n).0 ≡ ok tt = a.answer ∙ rw new in
          let order : after.order ≡ recent w.capacity (w.order ++ (n ∷ [])) = a.order ∙ rw new in
          let longer : List Bytes = past ++ (n ∷ []) in
          let (coherent, capacity, held) = receive_all-order after ns longer a.coherent (
            order
            ∙ ap (λ o. recent w.capacity (o ++ (n ∷ []))) h
            ∙ recent-recent w.capacity past n
            ∙ ap (λ k. recent k longer) (sym a.capacity)) in
          (
            coherent,
            capacity ∙ a.capacity,
            rw (answer, receive_all)
                (held
                  ∙ ap (λ k. recent k (longer ++ accepted)) a.capacity
                  ∙ ap (recent w.capacity) (append_assoc past (n ∷ []) accepted)),
          )
    ]

start_order :
    (capacity : ℕ) → (new_window capacity).order ≡ recent (new_window capacity).capacity []
unfolding new_window
start_order capacity = sym (drop_nil (0 - max capacity 1))

start_capacity : (capacity : ℕ) → (new_window capacity).capacity ≡ max capacity 1
unfolding new_window
start_capacity capacity = refl

-- Whatever was received before, a new nonce is refused exactly when it is among the last
-- `capacity` nonces that the window accepted (a capacity of 0 counts as 1).
pub receive_all-exact :
    (capacity : ℕ) (ns : List Bytes) (n : Bytes)
    → (accept_received (receive_all (new_window capacity) ns).0 n).0 ≡ (
        if contains (recent (max capacity 1) (receive_all (new_window capacity) ns).1) n
        then err replay_detected
        else ok tt)
receive_all-exact capacity ns n =
    let start = new_window capacity in
    let (coherent, _, order) =
      receive_all-order start ns [] (new_window-IsCoherent capacity) (start_order capacity) in
    (accept_received-Accepts (receive_all start ns).0 n coherent).answer
    ∙ rw order (
        ap
          (λ k.
            if contains (recent k (receive_all start ns).1) n then err replay_detected else ok tt)
          (start_capacity capacity))
