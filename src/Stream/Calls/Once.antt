-- ===== src/Stream/Calls/Once.antt =====
-- The name of a stream is used once.
use ssh_mobile.Base.{
  ◌≤◌, ◌≡◌, ◌≢◌, refl, Bool, true, ◌||◌, List, [], ◌∷◌, leb, length, arith, Bool-cases, inl, inr,
  ok,
}
use ssh_mobile.Base.Maps.{get, has, put, Unique, get-put, get-delete}
use ssh_mobile.Base.Sets.{contains}
use ssh_mobile.Stream.Codec.{Bytes}
use ssh_mobile.Stream.Entry.{
  StreamConsumer, StreamKey, key_eq, key_beq_iff, StreamEntry, new_entry, StreamState, new_state,
  max_retired_stream_keys,
}
use ssh_mobile.Stream.Registry.{
  open_stream, retire, remove_stream, remove_streams, extend, keys_of, close_all,
}
use ssh_mobile.Stream.Calls.{StreamCall, call_stream, call_streams}
use ssh_mobile.Stream.Calls.Edits.{
  Edits, keeps, writes_entry, opens_entry, removes, ends_entry, clears, call_stream-Edits,
}
use ssh_mobile.Stream.Calls.Bounds.{
  IsBounded, call_stream-IsBounded, write-IsBounded, remove_stream-IsBounded, has_of_get,
  call_streams-IsBounded, open_stream-IsBounded,
}

-- The name is in use, or remembered, or there is no room for another name.
abbrev is_spent : StreamKey → StreamState → Bool
is_spent key s =
    has key s.streams || (contains s.retired key || leb max_retired_stream_keys (length s.retired))

retire-contains :
    (key j : StreamKey) (retired : List StreamKey)
    → contains retired j ≡ true
    → contains (retire key retired) j ≡ true
unfolding retire contains
retire-contains key j retired h = ground arith

length-retire :
    (key : StreamKey) (retired : List StreamKey) → length retired ≤ length (retire key retired)
unfolding retire
length-retire key retired = ground arith

retire_self :
    (key : StreamKey) (retired : List StreamKey)
    → (contains (retire key retired) key
        || leb max_retired_stream_keys (length (retire key retired)))
      ≡ true
unfolding retire contains
retire_self key retired = ground (arith, key_beq_iff key key)

remove_stream-is_spent :
    (s : StreamState) (key j : StreamKey)
    → Unique s.streams
    → is_spent j s ≡ true
    → is_spent j (remove_stream s key) ≡ true
unfolding remove_stream
remove_stream-is_spent s key j u h = elim (Bool-cases (key_eq.beq key j)) [
  | inl same ↦
      let eq = (key_beq_iff key j).0 same in rw (← eq) (ground (arith, retire_self key s.retired))
  | inr other ↦ ground (
    arith,
    get-delete key j s.streams u,
    retire-contains key j s.retired,
    length-retire key s.retired,
  )
]

remove_streams-is_spent :
    (keys : List StreamKey) (s : StreamState) (j : StreamKey)
    → IsBounded s
    → is_spent j s ≡ true
    → is_spent j (remove_streams keys s) ≡ true
unfolding remove_streams
remove_streams-is_spent [] s j v h = h
remove_streams-is_spent (key ∷ keys) s j v h =
    remove_streams-is_spent keys (remove_stream s key) j (remove_stream-IsBounded s key v)
      (remove_stream-is_spent s key j v.unique h)

put-is_spent :
    (s : StreamState) (key j : StreamKey) (e : StreamEntry)
    → is_spent j s ≡ true
    → is_spent j (record s { streams = put key e s.streams }) ≡ true
put-is_spent s key j e h = ground (arith, get-put key j e s.streams)

known-contains :
    (key j : StreamKey) (keys retired : List StreamKey)
    → contains retired key ≡ true
    → contains (key ∷ keys) j || contains retired j ≡ true
    → contains keys j || contains retired j ≡ true
unfolding contains
known-contains key j keys retired old h = elim (Bool-cases (key_eq.beq key j)) [
  | inl same ↦
      let there : contains retired j ≡ true = rw ((key_beq_iff key j).0 same) at old in
      ground (arith, there)
  | inr other ↦ ground arith
]

extend-contains :
    (keys retired : List StreamKey) (j : StreamKey)
    → (contains keys j || contains retired j) ≡ true
    → contains (extend keys retired) j ≡ true
unfolding extend contains
extend-contains [] retired j h = h
extend-contains (key ∷ keys) retired j h = elim (Bool-cases (contains retired key)) [
  | inl old ↦ rw old (extend-contains keys retired j (known-contains key j keys retired old h))
  | inr new ↦ rw new (extend-contains keys (key ∷ retired) j (ground arith))
]

length-extend : (keys retired : List StreamKey) → length retired ≤ length (extend keys retired)
unfolding extend
length-extend [] retired = omega arith
length-extend (key ∷ keys) retired = elim (Bool-cases (contains retired key)) [
  | inl old ↦ rw old (length-extend keys retired)
  | inr new ↦ rw new (omega (arith, length-extend keys (key ∷ retired)))
]

contains-keys_of :
    (m : List (StreamKey × StreamEntry)) (j : StreamKey) → has j m ≡ contains (keys_of m) j
unfolding get contains
contains-keys_of [] j = refl
contains-keys_of ((key, e) ∷ m) j = ground (arith, contains-keys_of m j)

clear-is_spent :
    (s : StreamState) (j : StreamKey) → is_spent j s ≡ true → is_spent j (close_all s).1 ≡ true
unfolding close_all get
clear-is_spent s j h = elim (Bool-cases (contains (keys_of s.streams) j || contains s.retired j)) [
  | inl named ↦ rw (extend-contains (keys_of s.streams) s.retired j named) refl
  | inr unnamed ↦
      ground (arith, contains-keys_of s.streams j, length-extend (keys_of s.streams) s.retired)
]

Edits-is_spent :
    (s t : StreamState) (j : StreamKey)
    → Edits s t
    → IsBounded s
    → is_spent j s ≡ true
    → is_spent j t ≡ true
Edits-is_spent s t j (keeps eq) v h = rw eq h
Edits-is_spent s t j (writes_entry key e e' found b eq) v h = rw eq (put-is_spent s key j e' h)
Edits-is_spent s t j (opens_entry key consumer room new eq) v h =
    rw eq (put-is_spent s key j (new_entry consumer) h)
Edits-is_spent s t j (removes keys eq) v h = rw eq (remove_streams-is_spent keys s j v h)
Edits-is_spent s t j (ends_entry key e e' found b eq) v h =
    let w =
      write-IsBounded s key e' v (has_of_get key e s.streams found) (b (v.buffered key e found)) in
    rw eq (
      remove_stream-is_spent (record s { streams = put key e' s.streams }) key j w.unique
        (put-is_spent s key j e' h))
Edits-is_spent s t j (clears eq) v h = rw eq (clear-is_spent s j h)

calls-is_spent :
    (s : StreamState) (cs : List StreamCall) (j : StreamKey)
    → IsBounded s
    → is_spent j s ≡ true
    → is_spent j (call_streams s cs) ≡ true
unfolding call_streams
calls-is_spent s [] j v h = h
calls-is_spent s (c ∷ cs) j v h =
    calls-is_spent (call_stream s c) cs j (call_stream-IsBounded s c v)
      (Edits-is_spent s (call_stream s c) j (call_stream-Edits s c) v h)

spent_refused :
    (s : StreamState) (key : StreamKey) (service : Bytes) (consumer : StreamConsumer)
    → is_spent key s ≡ true
    → (open_stream s key service consumer).0 ≢ ok tt
unfolding open_stream
spent_refused s key service consumer h = ground arith

opened_spent :
    (s : StreamState) (key : StreamKey) (service : Bytes) (consumer : StreamConsumer)
    → (open_stream s key service consumer).0 ≡ ok tt
    → is_spent key (open_stream s key service consumer).1 ≡ true
unfolding open_stream
opened_spent s key service consumer h =
    ground (arith, get-put key key (new_entry consumer) s.streams, key_beq_iff key key)

-- A stream that was opened is opened no second time under its name, whatever calls come before,
-- between and after, also after it was closed: the second attempt is refused.
pub open_stream_once :
    (before between : List StreamCall) (key : StreamKey) (service service' : Bytes)
    (consumer consumer' : StreamConsumer)
    → (open_stream (call_streams new_state before) key service consumer).0 ≡ ok tt
    → (open_stream
        (call_streams (open_stream (call_streams new_state before) key service consumer).1 between)
        key
        service'
        consumer').0
      ≢ ok tt
open_stream_once before between key service service' consumer consumer' opened =
    let s : StreamState = call_streams new_state before in
    let v = open_stream-IsBounded s key service consumer (call_streams-IsBounded before) in
    spent_refused _ key service' consumer' (
      calls-is_spent (open_stream s key service consumer).1 between key v
        (opened_spent s key service consumer opened))
