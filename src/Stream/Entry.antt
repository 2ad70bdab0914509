-- ===== src/Stream/Entry.antt =====
-- What one stream keeps, and the names of streams:
-- native/network_core/crates/network-core/src/stream/entry.rs. A path lease and a QUIC send half
-- are handles that other code made, so they are numbers here.
use ssh_mobile.Base.{
  ℕ, ◌+◌, ◌%◌, ◌≡◌, ◌↔◌, refl, Bool, true, false, ◌&&◌, ◌==◌, ==_iff, List, [], Option, none, Eq,
  arith,
}
use ssh_mobile.Base.Words.{u64_mod}
use ssh_mobile.Stream.Codec.{Bytes}

pub data StreamConsumer : Type 0 where
  event bridge poll : StreamConsumer

abbrev pub is_event : StreamConsumer → Bool
is_event event = true
is_event bridge = false
is_event poll = false

pub data StreamOpener : Type 0 where
  local remote : StreamOpener

abbrev pub opener_beq : StreamOpener → StreamOpener → Bool
opener_beq local local = true
opener_beq local remote = false
opener_beq remote local = false
opener_beq remote remote = true

pub opener_beq_iff : (a b : StreamOpener) → (opener_beq a b ≡ true) ↔ (a ≡ b)
opener_beq_iff local local = (λ h. refl, λ h. refl)
opener_beq_iff local remote = (λ h. cc, λ h. cc)
opener_beq_iff remote local = (λ h. cc, λ h. cc)
opener_beq_iff remote remote = (λ h. refl, λ h. refl)

pub record StreamKey : Type 0 where
  pub opener : StreamOpener
  pub stream_id : ℕ

abbrev pub key_beq : StreamKey → StreamKey → Bool
key_beq a b = opener_beq a.opener b.opener && a.stream_id == b.stream_id

pub key_beq_iff : (a b : StreamKey) → (key_beq a b ≡ true) ↔ (a ≡ b)
key_beq_iff a b = (
  λ h. ground (arith, opener_beq_iff a.opener b.opener, ==_iff a.stream_id b.stream_id),
  λ h. ground (arith, opener_beq_iff a.opener b.opener, ==_iff a.stream_id b.stream_id),
)

instance abbrev pub key_eq : Eq StreamKey
key_eq = record { beq = key_beq; beq_iff = key_beq_iff }

abbrev pub PathLease : Type 0
PathLease = ℕ

abbrev pub SendStream : Type 0
SendStream = ℕ

-- The sender of `watch` holds the generation of the last wake, and the send lock is free between
-- the calls.
pub record StreamEntry : Type 0 where
  pub consumer : StreamConsumer
  pub recv_chunks : List Bytes
  pub recv_bytes : ℕ
  pub recv_closed : Bool
  pub next_recv_seq : ℕ
  pub wake_gen : ℕ
  pub quic_send : Option SendStream
  pub next_send_seq : ℕ
  pub send_closed : Bool
  pub path_lease : Option PathLease

abbrev pub new_entry : StreamConsumer → StreamEntry
new_entry consumer = record {
  consumer = consumer;
  recv_chunks = [];
  recv_bytes = 0;
  recv_closed = false;
  next_recv_seq = 0;
  wake_gen = 0;
  quic_send = none;
  next_send_seq = 0;
  send_closed = false;
  path_lease = none;
}

abbrev pub wake : StreamEntry → StreamEntry
wake e = record e { wake_gen = (e.wake_gen + 1) % u64_mod }

abbrev pub max_retired_stream_keys : ℕ
max_retired_stream_keys = 131072

abbrev pub max_concurrent_streams : ℕ
max_concurrent_streams = 32

pub record StreamState : Type 0 where
  pub streams : List (StreamKey × StreamEntry)
  pub retired : List StreamKey

abbrev pub new_state : StreamState
new_state = record { streams = []; retired = [] }
