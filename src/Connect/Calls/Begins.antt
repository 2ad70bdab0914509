-- ===== src/Connect/Calls/Begins.antt =====
-- A demand keeps the supervisor consistent.
use ssh_mobile.Base.{
  ℕ, ◌≡◌, refl, Bool, true, false, ◌||◌, ltb, leb, ◌==◌, length, str_eq, arith, Bool-cases,
  Option-cases, inl, inr,
}
use ssh_mobile.Base.Maps.{has}
use ssh_mobile.Connect.Types.{
  CommandId, max_peer_waiters, connecting, state_beq, next_generation, CommunicationClass,
  PeerRequirement, from_class, PeerIntent, PeerSupervisor, Surroundings,
}
use ssh_mobile.Connect.Intents.{
  Begun, add_waiter, start_generation, join_generation, begin, is_served, mailbox_error,
  queue_intent, finish_begin, admit_waiter, begin_connect_with_policy, admit_unless,
}
use ssh_mobile.Connect.Calls.Invariant.{
  IsPeer, fail_generation-IsPeer, later-IsWaiting, put-IsWaiting, next_generation-ge,
  next_generation_word,
}

-- What the lock section of a new demand leaves, its waiter included.
pub started-IsPeer :
    (s : PeerSupervisor) (id : CommandId) (r : PeerRequirement)
    → s.stopping ≡ false
    → has id s.waiters ≡ false
    → leb max_peer_waiters (length s.waiters) ≡ false
    → IsPeer s
    → IsPeer (add_waiter (start_generation s r) id r)
unfolding start_generation
started-IsPeer s id r live new room v = record {
  word = next_generation_word s.generation;
  waiting = put-IsWaiting s.waiters (next_generation s.generation) id r new room (
      later-IsWaiting s.waiters s.generation (next_generation s.generation)
        (next_generation-ge s.generation v.word) v.waiting);
  idle = λ h. absurd (cc h);
  known = λ h. absurd (cc h);
  stopped = λ h. absurd (cc (live, h));
  child = v.child;
  resources = v.resources;
}

pub joined-IsPeer :
    (s : PeerSupervisor) (id : CommandId) (active r : PeerRequirement)
    → s.stopping ≡ false
    → state_beq s.state connecting ≡ true
    → has id s.waiters ≡ false
    → leb max_peer_waiters (length s.waiters) ≡ false
    → IsPeer s
    → IsPeer (add_waiter (join_generation s active r).begun id r)
unfolding join_generation
joined-IsPeer s id active r live busy new room v = record {
  word = v.word;
  waiting = put-IsWaiting s.waiters s.generation id r new room v.waiting;
  idle = λ h. ground arith;
  known = λ h. ground arith;
  stopped = λ h. absurd (cc (live, h));
  child = v.child;
  resources = v.resources;
}

pub queue_intent-IsPeer :
    (s : PeerSupervisor) (generation : ℕ) (is_new : Bool) (intent : PeerIntent)
    (around : Surroundings)
    → IsPeer s
    → IsPeer (queue_intent s generation is_new intent around).after
unfolding queue_intent
queue_intent-IsPeer s generation is_new intent around v =
    elim (Option-cases (mailbox_error around.answer)) [
      | inl taken ↦ rw (queue_intent, taken) v
      | inr (reason, refused) ↦
          rw (queue_intent, refused) (fail_generation-IsPeer s generation reason v)
    ]

pub finish_begin-IsPeer :
    (b : Begun) (id : CommandId) (r : PeerRequirement) (around : Surroundings)
    → IsPeer (add_waiter b.begun id r)
    → IsPeer (finish_begin b id r around).after
unfolding finish_begin
finish_begin-IsPeer b id r around v = elim (Bool-cases b.queue_intent) [
  | inl queue ↦ rw queue (queue_intent-IsPeer (add_waiter b.begun id r) _ b.is_new _ around v)
  | inr rest ↦ rw rest v
]

pub begin-IsPeer :
    (s : PeerSupervisor) (id : CommandId) (class : CommunicationClass)
    → s.stopping ≡ false
    → has id s.waiters ≡ false
    → leb max_peer_waiters (length s.waiters) ≡ false
    → IsPeer s
    → IsPeer (add_waiter (begin s class).begun id (from_class class))
unfolding begin
begin-IsPeer s id class live new room v = elim (Bool-cases (state_beq s.state connecting)) [
  | inl busy ↦ rw busy (joined-IsPeer s id _ (from_class class) live busy new room v)
  | inr free ↦ rw free (started-IsPeer s id (from_class class) live new room v)
]

pub admit_waiter-IsPeer :
    (s : PeerSupervisor) (id : CommandId) (class : CommunicationClass) (around : Surroundings)
    → s.stopping ≡ false
    → IsPeer s
    → IsPeer (admit_waiter s id class around).after
unfolding admit_waiter
admit_waiter-IsPeer s id class around live v = elim (Bool-cases (has id s.waiters)) [
  | inl twice ↦ rw twice v
  | inr new ↦ elim (Bool-cases (leb max_peer_waiters (length s.waiters))) [
    | inl crowded ↦ rw (new, crowded) v
    | inr room ↦ elim (Bool-cases (is_served s class)) [
      | inl served ↦ rw (new, room, served) v
      | inr unserved ↦
          rw (new, room, unserved)
            (finish_begin-IsPeer (begin s class) id (from_class class) around
              (begin-IsPeer s id class live new room v))
    ]
  ]
]

-- Fields that the invariant does not mention.
pub other-IsPeer :
    (s : PeerSupervisor) (maintain configured : Bool) (attempt_id : ℕ)
    → IsPeer s
    → IsPeer (record s {
      maintain_connection = maintain;
      configured = configured;
      next_attempt_id = attempt_id;
    })
other-IsPeer s maintain configured attempt_id v = record {
  waiting = v.waiting;
  idle = v.idle;
  known = v.known;
  stopped = v.stopped;
  child = v.child;
  resources = v.resources;
  word = v.word;
}

pub admit_unless-IsPeer :
    (stopping : Bool) (s : PeerSupervisor) (id : CommandId) (class : CommunicationClass)
    (maintain : Bool) (around : Surroundings)
    → s.stopping ≡ stopping
    → IsPeer s
    → IsPeer (admit_unless stopping s id class maintain around).after
unfolding admit_unless
admit_unless-IsPeer true s id class maintain around e v = v
admit_unless-IsPeer false s id class maintain around e v =
    admit_waiter-IsPeer _ id class around e (other-IsPeer s _ s.configured s.next_attempt_id v)

pub begin_connect-IsPeer :
    (s : PeerSupervisor) (id : CommandId) (class : CommunicationClass) (maintain : Bool)
    (around : Surroundings)
    → IsPeer s
    → IsPeer (begin_connect_with_policy s id class maintain around).after
unfolding begin_connect_with_policy
begin_connect-IsPeer s id class maintain around v =
    elim (Bool-cases (length id == 0 || ltb 128 (length id))) [
      | inl bad ↦ rw bad v
      | inr good ↦ rw good (admit_unless-IsPeer s.stopping s id class maintain around refl v)
    ]
