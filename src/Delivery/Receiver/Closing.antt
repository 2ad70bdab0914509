-- ===== src/Delivery/Receiver/Closing.antt =====
-- What `close_peer` keeps of the ordered channels.
use ssh_mobile.Base.{ℕ, ◌≡◌, refl, ◌∙◌, false, List, [], ◌∷◌, Option, none, some, arith, str_eq}
use ssh_mobile.Base.Maps.{get, delete, Unique, get-delete}
use ssh_mobile.Base.Sets.{contains}
use ssh_mobile.Delivery.Keys.{Str, Scope, scope_eq, scope_beq_iff}
use ssh_mobile.Delivery.Types.{DeliveryStore, OrderedChannelState}
use ssh_mobile.Delivery.Timeouts.{fail_ordered_channel}
use ssh_mobile.Delivery.Incoming.{close_peer, emptied, of_others}

abbrev pub expected_of : Option OrderedChannelState → Option ℕ
expected_of none = none
expected_of (some c) = some c.expected_sequence

emptied-get :
    (peer : Str) (scope : Scope) (m : List (Scope × OrderedChannelState))
    → expected_of (get scope (emptied peer m)) ≡ expected_of (get scope m)
unfolding get
emptied-get peer scope [] = refl
emptied-get peer scope (((name, channel), c) ∷ rest) = ground (arith, emptied-get peer scope rest)

emptied_absent :
    (peer : Str) (scope : Scope) (m : List (Scope × OrderedChannelState))
    → get scope m ≡ none
    → get scope (emptied peer m) ≡ none
unfolding get
emptied_absent peer scope [] h = refl
emptied_absent peer scope (((name, channel), c) ∷ rest) h =
    ground (arith, emptied_absent peer scope rest)

of_others-contains :
    (peer channel : Str) (xs : List Scope) → contains (of_others peer xs) (peer, channel) ≡ false
unfolding contains
of_others-contains peer channel [] = refl
of_others-contains peer channel ((name, other) ∷ rest) =
    ground (arith, of_others-contains peer channel rest)

-- Closing a peer keeps the expected sequence of every healthy channel, and leaves no channel of
-- the peer failed. A channel that had failed has lost its expected sequence: it starts again at
-- the default, 0.
pub close_peer-expected :
    (s : DeliveryStore) (peer channel : Str) (scope : Scope)
    → Unique s.ordered
    → (expected_of (get scope (close_peer s peer).ordered) ≡ expected_of (get scope s.ordered))
      × (contains (close_peer s peer).failed_ordered (peer, channel) ≡ false)
      × (get (peer, channel) (close_peer (fail_ordered_channel s (peer, channel)).1 peer).ordered
          ≡ none)
unfolding close_peer fail_ordered_channel
close_peer-expected s peer channel scope u = (
  emptied-get peer scope s.ordered,
  of_others-contains peer channel s.failed_ordered,
  emptied_absent peer (peer, channel) (delete (peer, channel) s.ordered)
      (get-delete (peer, channel) (peer, channel) s.ordered u
        ∙ rw ((scope_beq_iff (peer, channel) (peer, channel)).1 refl)),
)
