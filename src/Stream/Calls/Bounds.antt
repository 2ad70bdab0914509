-- ===== src/Stream/Calls/Bounds.antt =====
-- What bounds the memory of the streams of a peer, and that every call keeps it.
use ssh_mobile.Base.{◌≤◌, ◌≡◌, sym, true, false, List, [], ◌∷◌, some, leb, length, arith}
use mathlib.Core.Path.{subst}
use ssh_mobile.Stream.Calls.Edits.{
  Edits, IsBuffered, keeps, writes_entry, opens_entry, removes, ends_entry, clears,
  call_stream-Edits,
}
use ssh_mobile.Base.Maps.{
  get, has, put, Unique, get-put, get-delete, put-Unique, delete-Unique, length-delete,
  length-put_new,
}
use ssh_mobile.Stream.Codec.{Bytes}
use ssh_mobile.Stream.Entry.{
  StreamConsumer, StreamKey, key_eq, StreamEntry, new_entry, StreamState, new_state,
  max_concurrent_streams,
}
use ssh_mobile.Stream.Registry.{open_stream, close_all, remove_stream, remove_streams}
use ssh_mobile.Stream.Calls.{StreamCall, opens, call_stream, call_streams}

pub record IsBounded (s : StreamState) : Type 0 where
  pub unique : Unique s.streams
  pub few : length s.streams ≤ max_concurrent_streams
  pub buffered : (key : StreamKey) (e : StreamEntry) → get key s.streams ≡ some e → IsBuffered e

-- A write to the entry of an open stream.
length-put_old :
    (key : StreamKey) (e : StreamEntry) (m : List (StreamKey × StreamEntry))
    → has key m ≡ true
    → length (put key e m) ≡ length m
unfolding get put
length-put_old key e [] h = absurd (cc h)
length-put_old key e ((j, f) ∷ m) h = ground (arith, length-put_old key e m)

pub write-IsBounded :
    (s : StreamState) (key : StreamKey) (e : StreamEntry)
    → IsBounded s
    → has key s.streams ≡ true
    → IsBuffered e
    → IsBounded (record s { streams = put key e s.streams })
write-IsBounded s key e v h b = record {
  unique = put-Unique key e s.streams v.unique;
  few = (let n = v.few in omega (arith, length-put_old key e s.streams h));
  buffered = λ j f found. ground (arith, get-put key j e s.streams, v.buffered j f);
}

open-IsBounded :
    (s : StreamState) (key : StreamKey) (consumer : StreamConsumer)
    → IsBounded s
    → leb max_concurrent_streams (length s.streams) ≡ false
    → has key s.streams ≡ false
    → IsBounded (record s { streams = put key (new_entry consumer) s.streams })
open-IsBounded s key consumer v room new = record {
  unique = put-Unique key (new_entry consumer) s.streams v.unique;
  few = ground (arith, length-put_new key (new_entry consumer) s.streams new);
  buffered =
      λ j f found. ground (arith, get-put key j (new_entry consumer) s.streams, v.buffered j f);
}

pub remove_stream-IsBounded :
    (s : StreamState) (key : StreamKey) → IsBounded s → IsBounded (remove_stream s key)
unfolding remove_stream
remove_stream-IsBounded s key v = record {
  unique = delete-Unique key s.streams v.unique;
  few = (let n = v.few in omega (arith, length-delete key s.streams));
  buffered = λ j f found. ground (arith, get-delete key j s.streams v.unique, v.buffered j f);
}

remove_streams-IsBounded :
    (keys : List StreamKey) (s : StreamState) → IsBounded s → IsBounded (remove_streams keys s)
unfolding remove_streams
remove_streams-IsBounded [] s v = v
remove_streams-IsBounded (key ∷ keys) s v =
    remove_streams-IsBounded keys (remove_stream s key) (remove_stream-IsBounded s key v)

clear-IsBounded : (s : StreamState) → IsBounded (close_all s).1
unfolding close_all get
clear-IsBounded s = record {
  unique = tt;
  few = omega arith;
  buffered = λ key e found. absurd (cc found);
}

pub has_of_get :
    (key : StreamKey) (e : StreamEntry) (m : List (StreamKey × StreamEntry))
    → get key m ≡ some e
    → has key m ≡ true
has_of_get key e m found = rw found

Edits-IsBounded : (s t : StreamState) → Edits s t → IsBounded s → IsBounded t
Edits-IsBounded s t (keeps eq) v = subst IsBounded (sym eq) v
Edits-IsBounded s t (writes_entry key e e' found b eq) v =
    subst IsBounded (sym eq)
      (write-IsBounded s key e' v (has_of_get key e s.streams found) (b (v.buffered key e found)))
Edits-IsBounded s t (opens_entry key consumer room new eq) v =
    subst IsBounded (sym eq) (open-IsBounded s key consumer v room new)
Edits-IsBounded s t (removes keys eq) v =
    subst IsBounded (sym eq) (remove_streams-IsBounded keys s v)
Edits-IsBounded s t (ends_entry key e e' found b eq) v = subst IsBounded (sym eq) (
    remove_stream-IsBounded _ key
      (write-IsBounded s key e' v (has_of_get key e s.streams found) (b (v.buffered key e found))))
Edits-IsBounded s t (clears eq) v = subst IsBounded (sym eq) (clear-IsBounded s)

pub call_stream-IsBounded :
    (s : StreamState) (c : StreamCall) → IsBounded s → IsBounded (call_stream s c)
call_stream-IsBounded s c v = Edits-IsBounded s (call_stream s c) (call_stream-Edits s c) v

calls_from-IsBounded :
    (s : StreamState) (cs : List StreamCall) → IsBounded s → IsBounded (call_streams s cs)
unfolding call_streams
calls_from-IsBounded s [] v = v
calls_from-IsBounded s (c ∷ cs) v =
    calls_from-IsBounded (call_stream s c) cs (call_stream-IsBounded s c v)

pub new_state-IsBounded : IsBounded new_state
unfolding get
new_state-IsBounded = record {
  unique = tt;
  few = omega arith;
  buffered = λ key e found. absurd (cc found);
}

pub open_stream-IsBounded :
    (s : StreamState) (key : StreamKey) (service : Bytes) (consumer : StreamConsumer)
    → IsBounded s
    → IsBounded (open_stream s key service consumer).1
unfolding call_stream
open_stream-IsBounded s key service consumer = call_stream-IsBounded s (opens key service consumer)

-- After any calls on the streams of a peer, in any order, there are at most 32 streams, each name
-- once, and each stream counts the bytes in its buffer, of which there are at most 262144.
pub call_streams-IsBounded : (cs : List StreamCall) → IsBounded (call_streams new_state cs)
call_streams-IsBounded cs = calls_from-IsBounded new_state cs new_state-IsBounded
