-- ===== src/Stream/Pipe/Refines.antt =====
-- Each call on a stream does what the call on the pipe does.
use ssh_mobile.Base.{
  ℕ, zero, suc, ◌+◌, ◌-◌, ◌%◌, ◌≤◌, ◌≡◌, refl, sym, ap, ◌∙◌, true, false, ◌||◌, not, List, [], ◌∷◌,
  ◌++◌, ltb, leb, ◌==◌, if◌then◌else◌, length, take, drop, none, some, arith, Bool-cases,
  Option-cases, inl, inr, concat, concat-append, take-append_ge, drop-append_ge, take-append_le,
  drop-append_le, length-append, append-nil, length-take, length-drop,
}
use mathlib.Core.Path.{subst}
use ssh_mobile.Base.Maps.{get, put, Unique, get-put, get-delete, put-Unique, delete-Unique}
use ssh_mobile.Base.Words.{u64_mod}
use ssh_mobile.Stream.Codec.{Bytes}
use ssh_mobile.Stream.Entry.{
  is_event, StreamKey, key_eq, key_beq_iff, StreamEntry, StreamState, wake,
}
use ssh_mobile.Stream.Registry.{handle_close, close_local, remove_stream}
use ssh_mobile.Stream.Buffer.{
  handle_bytes, append_bytes, fill, receive_bytes, finish_receive, max_per_stream_buffer_capacity,
}
use ssh_mobile.Stream.Pipe.{
  view, pipe_of, PipeCall, writes, reads, peer_closes, local_closes, closes, write_pipe, read_pipe,
  close_pipe, call_pipe, call_manager,
}

fill_lem :
    (room : ℕ) (chunks : List Bytes)
    → ((fill room chunks).0 ≡ take room (concat chunks))
      × (concat (fill room chunks).1 ≡ drop room (concat chunks))
unfolding fill
fill_lem zero [] = (refl, refl)
fill_lem (suc n) [] = (refl, refl)
fill_lem zero (c ∷ cs) = (refl, refl)
fill_lem (suc n) (c ∷ cs) = elim (Bool-cases (leb (length c) (suc n))) [
  | inl fits ↦
      let (taken, left) = fill_lem (suc n - length c) cs in
      let short : length c ≤ suc n = ground arith in
      let some_room : (suc n == 0) ≡ false = ground arith in
      rw (fits, fill, some_room, take-append_ge (suc n) c (concat cs) short)
        (ap (◌++◌ c) taken, left ∙ sym (drop-append_ge (suc n) c (concat cs) short))
  | inr over ↦
      let long : suc n ≤ length c = ground arith in
      let some_room : (suc n == 0) ≡ false = ground arith in
      rw (over, fill, some_room)
        (
          sym (take-append_le (suc n) c (concat cs) long),
          sym (drop-append_le (suc n) c (concat cs) long),
        )
]

-- The count of the bytes is right.
abbrev pub IsCounted : StreamEntry → Type 0
IsCounted e = e.recv_bytes ≡ length (concat e.recv_chunks)

pub record IsState (s : StreamState) : Type 0 where
  pub unique : Unique s.streams
  pub counted : (key : StreamKey) (e : StreamEntry) → get key s.streams ≡ some e → IsCounted e

pub put-IsState :
    (s : StreamState) (key : StreamKey) (e : StreamEntry)
    → IsState s
    → IsCounted e
    → IsState (record s { streams = put key e s.streams })
put-IsState s key e v c = record {
  unique = put-Unique key e s.streams v.unique;
  counted = λ j f h. ground (arith, get-put key j e s.streams, v.counted j f);
}

remove_stream-IsState :
    (s : StreamState) (key : StreamKey) → IsState s → IsState (remove_stream s key)
unfolding remove_stream
remove_stream-IsState s key v = record {
  unique = delete-Unique key s.streams v.unique;
  counted = λ j f h. ground (arith, get-delete key j s.streams v.unique, v.counted j f);
}

put_pipe :
    (s : StreamState) (key j : StreamKey) (e : StreamEntry)
    → pipe_of j (record s { streams = put key e s.streams })
      ≡ (if key_eq.beq key j then some (view e) else pipe_of j s)
put_pipe s key j e = ground (arith, get-put key j e s.streams)

pub append_bytes-IsCounted :
    (e : StreamEntry) (bytes : Bytes) → IsCounted e → IsCounted (append_bytes e bytes)
unfolding append_bytes
append_bytes-IsCounted e bytes c = omega (
  arith,
  ap length (concat-append e.recv_chunks (bytes ∷ [])),
  length-append {0} (concat e.recv_chunks) (bytes ++ []),
  ap length (append-nil bytes),
)

view-append_bytes :
    (e : StreamEntry) (bytes : Bytes)
    → view (append_bytes e bytes) ≡ record (view e) {
      bytes = concat e.recv_chunks ++ bytes;
      next_seq = (e.next_recv_seq + 1) % u64_mod;
    }
unfolding append_bytes
view-append_bytes e bytes = rw (concat-append e.recv_chunks (bytes ∷ []), append-nil bytes) refl

-- What a call does at its own stream, and that it leaves the others.
pub record Refines (s : StreamState) (key : StreamKey) (c : PipeCall) : Type 0 where
  pub result : (call_manager s key c).0 ≡ (call_pipe (pipe_of key s) c).0
  pub same : pipe_of key (call_manager s key c).1 ≡ (call_pipe (pipe_of key s) c).1
  pub others :
      (j : StreamKey) → key_eq.beq key j ≡ false → pipe_of j (call_manager s key c).1 ≡ pipe_of j s
  pub valid : IsState (call_manager s key c).1

-- A call that leaves the state is right where its result is.
unchanged :
    (s : StreamState) (key : StreamKey) (c : PipeCall)
    → IsState s
    → call_manager s key c ≡ ((call_pipe (pipe_of key s) c).0, s)
    → pipe_of key s ≡ (call_pipe (pipe_of key s) c).1
    → Refines s key c
unchanged s key c v e same = record {
  result = ap (λ p. p.0) e;
  same = ap (λ p. pipe_of key p.1) e ∙ same;
  others = λ j n. ap (λ p. pipe_of j p.1) e;
  valid = subst (λ p. IsState p.1) (sym e) v;
}

-- A call that writes one entry.
changed :
    (s : StreamState) (key : StreamKey) (c : PipeCall) (e : StreamEntry)
    → IsState s
    → IsCounted e
    → call_manager s key c
      ≡ ((call_pipe (pipe_of key s) c).0, record s { streams = put key e s.streams })
    → some (view e) ≡ (call_pipe (pipe_of key s) c).1
    → Refines s key c
changed s key c e v counted eq same = record {
  result = ap (λ p. p.0) eq;
  same =
      ap (λ p. pipe_of key p.1) eq
      ∙ put_pipe s key key e
      ∙ ap (λ b. if b then some (view e) else pipe_of key s) ((key_beq_iff key key).1 refl)
      ∙ same;
  others = λ j n.
      ap (λ p. pipe_of j p.1) eq
      ∙ put_pipe s key j e
      ∙ ap (λ b. if b then some (view e) else pipe_of j s) n;
  valid = subst (λ p. IsState p.1) (sym eq) (put-IsState s key e v counted);
}

handle_bytes-Refines :
    (s : StreamState) (key : StreamKey) (seq : ℕ) (bytes : Bytes)
    → IsState s
    → Refines s key (writes seq bytes)
unfolding call_manager call_pipe handle_bytes write_pipe
handle_bytes-Refines s key seq bytes v = elim (Option-cases (get key s.streams)) [
  | inl gone ↦ unchanged s key (writes seq bytes) v (ground arith) (ground arith)
  | inr (e, found) ↦
      let counted = v.counted key e found in
      elim (Bool-cases (e.recv_closed || e.send_closed || ltb seq e.next_recv_seq)) [
        | inl late ↦ unchanged s key (writes seq bytes) v (ground arith) (ground arith)
        | inr live ↦ elim (Bool-cases (not (seq == e.next_recv_seq))) [
          | inl gap ↦ unchanged s key (writes seq bytes) v (ground arith) (ground arith)
          | inr next ↦
              elim (Bool-cases (leb (e.recv_bytes + length bytes) max_per_stream_buffer_capacity)) [
                | inr full ↦ unchanged s key (writes seq bytes) v (ground arith) (ground arith)
                | inl fits ↦
                    changed s key (writes seq bytes) (append_bytes e bytes) v
                      (append_bytes-IsCounted e bytes counted) (ground arith)
                      (ground (arith, view-append_bytes e bytes))
              ]
        ]
      ]
]

unfoldable pub taken : StreamEntry → ℕ → StreamEntry
taken e room = record e {
  recv_bytes = e.recv_bytes - length (fill room e.recv_chunks).0;
  recv_chunks = (fill room e.recv_chunks).1;
}

pub taken-IsCounted : (e : StreamEntry) (room : ℕ) → IsCounted e → IsCounted (taken e room)
unfolding taken
taken-IsCounted e room c =
    let (out, left) = fill_lem room e.recv_chunks in
    omega (
      arith,
      ap length out,
      ap length left,
      length-take {0} room (concat e.recv_chunks),
      length-drop {0} room (concat e.recv_chunks),
    )

-- Where nothing was read, nothing is lost: the room is zero or there are no bytes.
drop_of_take_nil : (n : ℕ) (xs : Bytes) → length (take n xs) ≡ 0 → drop n xs ≡ xs
drop_of_take_nil zero xs h = refl
drop_of_take_nil (suc n) [] h = refl
drop_of_take_nil (suc n) (x ∷ xs) h = absurd (omega arith)

receive_bytes-Refines :
    (s : StreamState) (key : StreamKey) (room : ℕ) → IsState s → Refines s key (reads room)
unfolding call_manager call_pipe receive_bytes read_pipe taken finish_receive
receive_bytes-Refines s key room v = elim (Option-cases (get key s.streams)) [
  | inl gone ↦ unchanged s key (reads room) v (ground arith) (ground arith)
  | inr (e, found) ↦ elim (Bool-cases (is_event e.consumer)) [
    | inl evented ↦ unchanged s key (reads room) v (ground arith) (ground arith)
    | inr polled ↦
        let (out, left) = fill_lem room e.recv_chunks in
        let counted = taken-IsCounted e room (v.counted key e found) in
        elim (Bool-cases (ltb 0 (length (fill room e.recv_chunks).0))) [
          | inl some_bytes ↦
              changed s key (reads room) (wake (taken e room)) v counted (ground arith)
                (ground arith)
          | inr no_bytes ↦
              let same_bytes = drop_of_take_nil room (concat e.recv_chunks) (ground arith) in
              changed s key (reads room) (record e { recv_chunks = (fill room e.recv_chunks).1 }) v
                (ground arith) (ground arith) (ground arith)
        ]
  ]
]

remove_stream-get :
    (s : StreamState) (key j : StreamKey)
    → IsState s
    → pipe_of j (remove_stream s key) ≡ (if key_eq.beq key j then none else pipe_of j s)
unfolding remove_stream
remove_stream-get s key j v = ground (arith, get-delete key j s.streams v.unique)

-- A call that ends the stream.
ended :
    (s : StreamState) (key : StreamKey) (c : PipeCall) (e : StreamEntry)
    → IsState s
    → IsCounted e
    → call_manager s key c
      ≡ (closes, remove_stream (record s { streams = put key e s.streams }) key)
    → call_pipe (pipe_of key s) c ≡ (closes, none)
    → Refines s key c
ended s key c e v counted eq gone =
    let s' : StreamState = record s { streams = put key e s.streams } in
    let v' = put-IsState s key e v counted in
    record {
      result = ap (λ p. p.0) eq ∙ sym (ap (λ p. p.0) gone);
      same =
          ap (λ p. pipe_of key p.1) eq
          ∙ remove_stream-get s' key key v'
          ∙ ap (λ b. if b then none else pipe_of key s') ((key_beq_iff key key).1 refl)
          ∙ sym (ap (λ p. p.1) gone);
      others = λ j n.
          ap (λ p. pipe_of j p.1) eq
          ∙ remove_stream-get s' key j v'
          ∙ ap (λ b. if b then none else pipe_of j s') n
          ∙ put_pipe s key j e
          ∙ ap (λ b. if b then some (view e) else pipe_of j s) n;
      valid = subst (λ p. IsState p.1) (sym eq) (remove_stream-IsState s' key v');
    }

handle_close-Refines : (s : StreamState) (key : StreamKey) → IsState s → Refines s key peer_closes
unfolding call_manager call_pipe handle_close close_pipe
handle_close-Refines s key v = elim (Option-cases (get key s.streams)) [
  | inl gone ↦ unchanged s key peer_closes v (ground arith) (ground arith)
  | inr (e, found) ↦ elim (Bool-cases e.recv_closed) [
    | inl twice ↦ unchanged s key peer_closes v (ground arith) (ground arith)
    | inr first ↦
        let e' : StreamEntry = wake (record e { recv_closed = true }) in
        let counted = v.counted key e found in
        elim (Bool-cases e.send_closed) [
          | inl both ↦ ended s key peer_closes e' v counted (ground arith) (ground arith)
          | inr half ↦ changed s key peer_closes e' v counted (ground arith) (ground arith)
        ]
  ]
]

close_local-Refines : (s : StreamState) (key : StreamKey) → IsState s → Refines s key local_closes
unfolding call_manager call_pipe close_local close_pipe
close_local-Refines s key v = elim (Option-cases (get key s.streams)) [
  | inl gone ↦ unchanged s key local_closes v (ground arith) (ground arith)
  | inr (e, found) ↦ elim (Bool-cases e.send_closed) [
    | inl twice ↦ unchanged s key local_closes v (ground arith) (ground arith)
    | inr first ↦
        let e' : StreamEntry = wake (record e { send_closed = true }) in
        let counted = v.counted key e found in
        elim (Bool-cases e.recv_closed) [
          | inl both ↦ ended s key local_closes e' v counted (ground arith) (ground arith)
          | inr half ↦ changed s key local_closes e' v counted (ground arith) (ground arith)
        ]
  ]
]

pub call_manager-Refines :
    (s : StreamState) (key : StreamKey) (c : PipeCall) → IsState s → Refines s key c
call_manager-Refines s key (writes seq bytes) v = handle_bytes-Refines s key seq bytes v
call_manager-Refines s key (reads room) v = receive_bytes-Refines s key room v
call_manager-Refines s key peer_closes v = handle_close-Refines s key v
call_manager-Refines s key local_closes v = close_local-Refines s key v
