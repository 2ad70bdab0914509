-- ===== src/Delivery/Timeouts.antt =====
-- Timeouts and failed channels of the receiving side:
-- native/network_core/crates/network-core/src/delivery/incoming.rs. Where the source walks a hash
-- set, the model walks a list of its members; only the order of the reported timeouts depends on
-- it. The assertions of debug builds are left out.
use ssh_mobile.Base.{
  ℕ, Bool, true, false, ◌&&◌, List, [], ◌∷◌, ◌++◌, Option, none, some, leb, if◌then◌else◌, str_beq,
  str_eq, nat_eq, map,
}
use ssh_mobile.Base.Sets.{contains}
use ssh_mobile.Base.Maps.{get, has, delete, retain}
use ssh_mobile.Delivery.Keys.{Str, MessageId, Scope, scope_eq, DedupKey, dedup_eq, dedup_key}
use ssh_mobile.Delivery.Types.{
  OrderedMessage, OrderedChannelState, DeliveryStore, ActiveIncomingRecord, in_flight,
  ordered_buffered,
}
use ssh_mobile.Delivery.Ordered.{is_flying}

pub record IncomingTimeout : Type 0 where
  pub peer_id : Str
  pub channel_id : Str
  pub message_id : MessageId
  pub ordered_channel_failed : Bool

abbrev pub timeout_of : Bool → DedupKey → IncomingTimeout
timeout_of ordered k = record {
  peer_id = k.peer_id;
  channel_id = k.channel_id;
  message_id = k.message_id;
  ordered_channel_failed = ordered;
}

abbrev pub scope_of : DedupKey → Scope
scope_of k = (k.peer_id, k.channel_id)

-- `HashSet::insert`.
abbrev pub add_key : DedupKey → List DedupKey → List DedupKey
add_key k ks = if contains ks k then ks else k ∷ ks

abbrev pub add_scope : Scope → List Scope → List Scope
add_scope k ks = if contains ks k then ks else k ∷ ks

-- The keys of the messages that a channel holds.
abbrev pub buffered_keys : List (ℕ × OrderedMessage) → List DedupKey
buffered_keys [] = []
buffered_keys ((n, m) ∷ rest) =
    add_key (dedup_key m.peer_id m.channel_id m.message_id) (buffered_keys rest)

abbrev pub held_keys : Scope → Option OrderedChannelState → List DedupKey
held_keys (peer, channel) none = []
held_keys (peer, channel) (some c) = elim c.flying [
  | none ↦ buffered_keys c.reorder_buffer
  | some id ↦ add_key (dedup_key peer channel id) (buffered_keys c.reorder_buffer)
]

-- With the active messages of the channel.
abbrev pub affected_keys :
    Scope → List DedupKey → List (DedupKey × ActiveIncomingRecord) → List DedupKey
affected_keys (peer, channel) held [] = held
affected_keys (peer, channel) held ((k, r) ∷ rest) =
    let others = affected_keys (peer, channel) held rest in
    if str_beq k.peer_id peer && str_beq k.channel_id channel then add_key k others else others

abbrev pub delete_keys :
    List DedupKey → List (DedupKey × ActiveIncomingRecord) → List (DedupKey × ActiveIncomingRecord)
delete_keys [] m = m
delete_keys (k ∷ ks) m = delete_keys ks (delete k m)

unfoldable pub fail_ordered_channel : DeliveryStore → Scope → List DedupKey × DeliveryStore
fail_ordered_channel s scope =
    let affected = affected_keys scope (held_keys scope (get scope s.ordered)) s.incoming_active in
    (
      affected,
      record s {
        ordered = delete scope s.ordered;
        incoming_active = delete_keys affected s.incoming_active;
        failed_ordered = add_scope scope s.failed_ordered;
      },
    )

abbrev pub is_due : Option ℕ → ℕ → Bool
is_due none now = false
is_due (some deadline) now = leb deadline now

abbrev pub is_timed_out : ℕ → Option Str → DedupKey → ActiveIncomingRecord → Bool
is_timed_out now peer k r =
    (elim peer [ none ↦ true | some name ↦ str_beq k.peer_id name ])
    && (elim r.state [ in_flight ↦ is_due r.ack_deadline now | ordered_buffered ↦ false ])

abbrev pub is_in_order : DeliveryStore → DedupKey → Bool
is_in_order s k = elim (get (scope_of k) s.ordered) [
  | none ↦ false
  | some c ↦ is_flying c k.message_id
]

-- What the first loop of `expire_incoming_locked` leaves.
pub record Expiry : Type 0 where
  pub store : DeliveryStore
  pub scopes : List Scope
  pub timeouts : List IncomingTimeout

unfoldable pub expire_active : List (DedupKey × ActiveIncomingRecord) → DeliveryStore → Expiry
expire_active [] s = record { store = s; scopes = []; timeouts = [] }
expire_active ((k, r) ∷ rest) s = elim (is_in_order s k) [
  | true ↦ let e = expire_active rest s in record e { scopes = add_scope (scope_of k) e.scopes }
  | false ↦
      let e = expire_active rest (record s { incoming_active = delete k s.incoming_active }) in
      if has k s.incoming_active then record e { timeouts = timeout_of false k ∷ e.timeouts } else e
]

unfoldable pub fail_each : List Scope → DeliveryStore → List IncomingTimeout × DeliveryStore
fail_each [] s = ([], s)
fail_each (scope ∷ scopes) s =
    let (affected, s') = fail_ordered_channel s scope in
    let (timeouts, s'') = fail_each scopes s' in (map (timeout_of true) affected ++ timeouts, s'')

unfoldable pub expire_incoming_locked :
    DeliveryStore → ℕ → Option Str → List IncomingTimeout × DeliveryStore
expire_incoming_locked s now peer =
    let e = expire_active (retain (is_timed_out now peer) s.incoming_active) s in
    let (failed, s') = fail_each e.scopes e.store in (e.timeouts ++ failed, s')

unfoldable pub expire_incoming : DeliveryStore → Str → ℕ → List IncomingTimeout × DeliveryStore
expire_incoming s peer now = expire_incoming_locked s now (some peer)
