-- ===== src/Crypto/Sessions/Aliases.antt =====
-- The aliases of a session.
use ssh_mobile.Base.{
  ℕ, ◌≡◌, refl, ◌∙◌, Bool, false, not, List, [], ◌∷◌, none, some, ◌==◌, ok, err, str_beq, str_eq,
  if◌then◌else◌, arith, str_beq_iff, Option-cases, inl, inr,
}
use ssh_mobile.Base.Maps.{
  get, put, delete, retain, Unique, get-put, get-retain, get-delete, delete-Unique,
}
use ssh_mobile.Base.Sets.{contains}
use ssh_mobile.Delivery.Keys.{Str, Scope, scope_eq, scope_beq_iff}
use ssh_mobile.Crypto.Types.{Bytes, e2ee_required}
use ssh_mobile.Crypto.Sessions.{
  SessionCryptoManager, put_aliases, install_material_aliases, get_context, remove_session,
}

get-put_aliases :
    (peer : Str) (sessions : List Str) (handle : ℕ) (m : List (Scope × ℕ)) (session : Str)
    → get (peer, session) (put_aliases peer sessions handle m)
      ≡ (if contains sessions session then some handle else get (peer, session) m)
unfolding contains
get-put_aliases peer [] handle m session = refl
get-put_aliases peer (first ∷ rest) handle m session =
    get-put_aliases peer rest handle (put (peer, first) handle m) session
    ∙ ground (
      arith,
      get-put (peer, first) (peer, session) handle m,
      str_beq_iff peer peer,
      str_beq_iff first session,
    )

get-put_aliases_other :
    (peer other : Str) (sessions : List Str) (handle : ℕ) (m : List (Scope × ℕ)) (session : Str)
    → str_beq peer other ≡ false
    → get (other, session) (put_aliases peer sessions handle m) ≡ get (other, session) m
get-put_aliases_other peer other [] handle m session h = refl
get-put_aliases_other peer other (first ∷ rest) handle m session h =
    get-put_aliases_other peer other rest handle (put (peer, first) handle m) session h
    ∙ ground (arith, get-put (peer, first) (other, session) handle m)

pub install_material_aliases_peer :
    (s : SessionCryptoManager) (peer : Str) (sessions : List Str) (root : Bytes) (initiator : Bool)
    (session : Str)
    → Unique s.contexts
    → get_context (install_material_aliases s peer sessions root initiator).1 peer session
      ≡ (if contains sessions session then ok s.next_handle else err e2ee_required)
unfolding install_material_aliases get_context
install_material_aliases_peer s peer sessions root initiator session u =
    let kept = retain (λ k n. not (str_beq k.0 peer)) s.contexts in
    ground (
      arith,
      get-put_aliases peer sessions s.next_handle kept session,
      get-retain (λ k n. not (str_beq k.0 peer)) (peer, session) s.contexts u,
      str_beq_iff peer peer,
    )

pub install_material_aliases_other :
    (s : SessionCryptoManager) (peer other : Str) (sessions : List Str) (root : Bytes)
    (initiator : Bool) (session : Str)
    → Unique s.contexts
    → str_beq peer other ≡ false
    → get_context (install_material_aliases s peer sessions root initiator).1 other session
      ≡ get_context s other session
unfolding install_material_aliases get_context
install_material_aliases_other s peer other sessions root initiator session u h =
    let kept = retain (λ k n. not (str_beq k.0 peer)) s.contexts in
    ground (
      arith,
      get-put_aliases_other peer other sessions s.next_handle kept session h,
      get-retain (λ k n. not (str_beq k.0 peer)) (other, session) s.contexts u,
      str_beq_iff other peer,
      str_beq_iff peer other,
    )

-- Removing a session removes every alias of its context, and keeps each session that has another.
pub remove_session-get :
    (s : SessionCryptoManager) (peer session p x : Str) (handle : ℕ)
    → Unique s.contexts
    → get_context s peer session ≡ ok handle
    → get_context (remove_session s peer session) p x ≡ (elim (get (p, x) s.contexts) [
      | none ↦ err e2ee_required
      | some h ↦ if h == handle then err e2ee_required else ok h
    ])
unfolding get_context remove_session
remove_session-get s peer session p x handle u held =
    elim (Option-cases (get (peer, session) s.contexts)) [
      | inl gone ↦ absurd (cc (rw (gone, get_context) at held))
      | inr (n, found) ↦
          let same : n ≡ handle = cc (rw (found, get_context) at held) in
          rw (found, remove_session, same)
            (ground (
              arith,
              get-retain (λ k h. not (h == handle)) (p, x) (delete (peer, session) s.contexts)
                  (delete-Unique (peer, session) s.contexts u),
              get-delete (peer, session) (p, x) s.contexts u,
              scope_beq_iff (peer, session) (p, x),
              found,
            ))
    ]
