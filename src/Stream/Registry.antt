-- ===== src/Stream/Registry.antt =====
-- The life of the streams of a peer:
-- native/network_core/crates/network-core/src/stream/manager_registry.rs. A method is a function
-- of the state that the mutex guards; what it hands to the event channel is part of its result.
use ssh_mobile.Base.{
  ℕ, Bool, true, false, ◌||◌, List, [], ◌∷◌, ltb, leb, ◌==◌, if◌then◌else◌, length, none, some,
  is_some, Result, ok, err, min,
}
use ssh_mobile.Base.Maps.{get, has, put, delete}
use ssh_mobile.Base.Sets.{contains}
use ssh_mobile.Stream.Codec.{
  Bytes, StreamError, not_found, already_open, closed, invalid_argument, capacity_exceeded,
  not_connected, max_service_bytes,
}
use ssh_mobile.Stream.Entry.{
  StreamConsumer, StreamKey, key_eq, PathLease, StreamEntry, new_entry, wake,
  max_retired_stream_keys, max_concurrent_streams, StreamState,
}

unfoldable pub active_count : StreamState → ℕ
active_count s = min (length s.streams) 4294967295

unfoldable pub open_stream :
    StreamState → StreamKey → Bytes → StreamConsumer → Result StreamError (Unit {0}) × StreamState
open_stream s key service consumer =
    if length service == 0 || ltb max_service_bytes (length service)
    then (err invalid_argument, s)
    else if leb max_concurrent_streams (length s.streams)
    then (err capacity_exceeded, s)
    else if has key s.streams
    then (err already_open, s)
    else if contains s.retired key
    then (err closed, s)
    else if leb max_retired_stream_keys (length s.retired)
    then (err capacity_exceeded, s)
    else (ok tt, record s { streams = put key (new_entry consumer) s.streams })

unfoldable pub bind_lease :
    StreamState → StreamKey → PathLease → Result StreamError (Unit {0}) × StreamState
bind_lease s key lease = elim (get key s.streams) [
  | none ↦ (err not_found, s)
  | some entry ↦ if is_some entry.path_lease then (err already_open, s) else (
    ok tt,
    record s { streams = put key (record entry { path_lease = some lease }) s.streams },
  )
]

unfoldable pub take_lease : StreamState → StreamKey → Result StreamError PathLease × StreamState
take_lease s key = elim (get key s.streams) [
  | none ↦ (err not_found, s)
  | some entry ↦ if entry.send_closed then (err closed, s) else elim entry.path_lease [
    | none ↦ (err not_connected, s)
    | some lease ↦
        (ok lease, record s { streams = put key (record entry { path_lease = none }) s.streams })
  ]
]

unfoldable pub restore_lease : StreamState → StreamKey → PathLease → Bool × StreamState
restore_lease s key lease = elim (get key s.streams) [
  | none ↦ (false, s)
  | some entry ↦ if entry.recv_closed || is_some entry.path_lease then (false, s) else (
    true,
    record s { streams = put key (record entry { path_lease = some lease }) s.streams },
  )
]

-- `if retired.len() < MAX_RETIRED_STREAM_KEYS { retired.insert(key) }`.
unfoldable pub retire : StreamKey → List StreamKey → List StreamKey
retire key retired =
    if ltb (length retired) max_retired_stream_keys
    then (if contains retired key then retired else key ∷ retired)
    else retired

-- The stream leaves the map, and its name is spent.
unfoldable pub remove_stream : StreamState → StreamKey → StreamState
remove_stream s key = record s { streams = delete key s.streams; retired = retire key s.retired }

unfoldable pub handle_close : StreamState → StreamKey → StreamState
handle_close s key = elim (get key s.streams) [
  | none ↦ s
  | some entry ↦
      if entry.recv_closed
      then s
      else (let s' = record s {
        streams = put key (wake (record entry { recv_closed = true })) s.streams;
      } in
          if entry.send_closed then remove_stream s' key else s')
]

unfoldable pub close_local : StreamState → StreamKey → StreamState
close_local s key = elim (get key s.streams) [
  | none ↦ s
  | some entry ↦
      if entry.send_closed
      then s
      else (let s' = record s {
        streams = put key (wake (record entry { send_closed = true })) s.streams;
      } in
          if entry.recv_closed then remove_stream s' key else s')
]

unfoldable pub is_open : StreamState → StreamKey → Bool
is_open s key = has key s.streams

abbrev pub keys_of : List (StreamKey × StreamEntry) → List StreamKey
keys_of [] = []
keys_of ((key, entry) ∷ m) = key ∷ keys_of m

-- `retired.extend(keys)`.
unfoldable pub extend : List StreamKey → List StreamKey → List StreamKey
extend [] retired = retired
extend (key ∷ keys) retired = extend keys (if contains retired key then retired else key ∷ retired)

-- Returns the names of the streams, for which it emits closed events.
unfoldable pub close_all : StreamState → List StreamKey × StreamState
close_all s =
    (keys_of s.streams, record s { streams = []; retired = extend (keys_of s.streams) s.retired })

-- The streams whose lease is no longer active.
unfoldable pub inactive_keys : (PathLease → Bool) → List (StreamKey × StreamEntry) → List StreamKey
inactive_keys is_active [] = []
inactive_keys is_active ((key, entry) ∷ m) =
    let rest = inactive_keys is_active m in
    elim entry.path_lease [
      | none ↦ rest
      | some lease ↦ if is_active lease then rest else key ∷ rest
    ]

unfoldable pub remove_streams : List StreamKey → StreamState → StreamState
remove_streams [] s = s
remove_streams (key ∷ keys) s = remove_streams keys (remove_stream s key)

unfoldable pub close_inactive : (PathLease → Bool) → StreamState → List StreamKey × StreamState
close_inactive is_active s =
    let keys = inactive_keys is_active s.streams in (keys, remove_streams keys s)

-- `close_stream_after_path_loss` of session.rs.
unfoldable pub close_stream_after_path_loss : StreamState → StreamKey → StreamError × StreamState
close_stream_after_path_loss s key = (closed, close_local (handle_close s key) key)
