-- ===== src/Connect/Calls/Invariant.antt =====
-- The state of a peer supervisor is consistent.
use ssh_mobile.Base.{
  ℕ, ◌≤◌, ◌≡◌, refl, Bool, true, false, List, [], Option, none, some, is_some, leb, ◌==◌, length,
  str_eq, arith, Bool-cases, inl, inr,
}
use ssh_mobile.Base.Maps.{
  get, has, put, retain, Unique, get-put, get-retain, put-Unique, retain-Unique, length-retain,
  length-put_new,
}
use ssh_mobile.Base.Words.{u64_max}
use ssh_mobile.Connect.Types.{
  CommandId, max_peer_waiters, max_peer_resources, offline, online, state_beq, next_generation,
  PeerRequirement, CoreNetworkError, Waiter, ConnectionTask, PeerSupervisor,
}
use ssh_mobile.Connect.Intents.{reset, fail_generation}

-- Each waiting command once, not too many of them, and none of a generation to come.
pub record IsWaiting (waiters : List (CommandId × Waiter)) (generation : ℕ) : Type 0 where
  pub unique : Unique waiters
  pub few : length waiters ≤ max_peer_waiters
  pub past : (id : CommandId) (w : Waiter) → get id waiters ≡ some w → w.generation ≤ generation

abbrev pub children_of : Option ConnectionTask → ℕ
children_of none = 0
children_of (some task) = 1

-- A peer that is offline keeps nobody waiting, a peer that is online knows what its path provides,
-- a stopping peer is offline, and there is one attempt at most.
pub record IsPeer (s : PeerSupervisor) : Type 0 where
  pub waiting : IsWaiting s.waiters s.generation
  pub idle : state_beq s.state offline ≡ true → s.waiters ≡ []
  pub known : state_beq s.state online ≡ true → is_some s.ready_requirement ≡ true
  pub stopped : s.stopping ≡ true → state_beq s.state offline ≡ true
  pub child : s.active_children ≡ children_of s.connection_task
  pub resources : s.resources ≤ max_peer_resources
  pub word : s.generation ≤ u64_max

pub nobody-IsWaiting : (generation : ℕ) → IsWaiting [] generation
unfolding get
nobody-IsWaiting generation = record {
  unique = tt;
  few = omega arith;
  past = λ id w found. absurd (cc found);
}

-- A peer that is reset, with whatever else.
pub reset-IsPeer :
    (s : PeerSupervisor)
    → s.active_children ≡ children_of s.connection_task
    → s.resources ≤ max_peer_resources
    → s.generation ≤ u64_max
    → IsPeer (reset s)
reset-IsPeer s child resources word = record {
  waiting = nobody-IsWaiting s.generation;
  idle = λ h. refl;
  known = λ h. absurd (cc h);
  stopped = λ h. refl;
  child = child;
  resources = resources;
  word = word;
}

pub fail_generation-IsPeer :
    (s : PeerSupervisor) (generation : ℕ) (error : CoreNetworkError)
    → IsPeer s
    → IsPeer (fail_generation s generation error).1
unfolding fail_generation
fail_generation-IsPeer s generation error v = elim (Bool-cases (s.generation == generation)) [
  | inl same ↦ rw same (reset-IsPeer s v.child v.resources v.word)
  | inr other ↦ rw other v
]

pub later-IsWaiting :
    (waiters : List (CommandId × Waiter)) (g g' : ℕ)
    → g ≤ g'
    → IsWaiting waiters g
    → IsWaiting waiters g'
later-IsWaiting waiters g g' le v = record {
  unique = v.unique;
  few = v.few;
  past = λ id w found. let old = v.past id w found in omega arith;
}

pub put-IsWaiting :
    (waiters : List (CommandId × Waiter)) (g : ℕ) (id : CommandId) (r : PeerRequirement)
    → has id waiters ≡ false
    → leb max_peer_waiters (length waiters) ≡ false
    → IsWaiting waiters g
    → IsWaiting (put id (record { generation = g; requirement = r }) waiters) g
put-IsWaiting waiters g id r new room v =
    let w : Waiter = record { generation = g; requirement = r } in
    record {
      unique = put-Unique id w waiters v.unique;
      few = ground (arith, length-put_new id w waiters new);
      past = λ j x found. ground (arith, get-put id j w waiters, v.past j x);
    }

pub retain-IsWaiting :
    (p : CommandId → Waiter → Bool) (waiters : List (CommandId × Waiter)) (g : ℕ)
    → IsWaiting waiters g
    → IsWaiting (retain p waiters) g
retain-IsWaiting p waiters g v = record {
  unique = retain-Unique p waiters v.unique;
  few = (let n = v.few in omega (arith, length-retain p waiters));
  past = λ j x found. ground (arith, get-retain p j waiters v.unique, v.past j x);
}

pub next_generation-ge : (g : ℕ) → g ≤ u64_max → g ≤ next_generation g
next_generation-ge g h = ground arith

pub next_generation_word : (g : ℕ) → next_generation g ≤ u64_max
next_generation_word g = ground arith
