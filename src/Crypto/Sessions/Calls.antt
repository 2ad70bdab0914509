-- ===== src/Crypto/Sessions/Calls.antt =====
-- Sessions that come and go.
use ssh_mobile.Base.{
  ℕ, ◌≤◌, ◌<◌, ◌≡◌, refl, Bool, false, not, List, [], ◌∷◌, none, some, ◌==◌, ok, err, nat_eq,
  str_beq, str_eq, if◌then◌else◌, arith, Option-cases, inl, inr, ◌⊎◌,
}
use ssh_mobile.Base.Maps.{
  get, put, delete, retain, Unique, get-put, get-retain, get-delete, delete-Unique, put-Unique,
  retain-Unique,
}
use ssh_mobile.Base.Sets.{contains}
use ssh_mobile.Delivery.Keys.{Str, Scope, scope_eq, scope_beq_iff}
use ssh_mobile.Crypto.Types.{Bytes, e2ee_required}
use ssh_mobile.Crypto.Context.{from_session_root}
use ssh_mobile.Crypto.Sessions.{
  SessionCryptoManager, new_manager, put_aliases, install_material_aliases, get_context,
  remove_session,
}
use ssh_mobile.Crypto.Sessions.Aliases.{
  install_material_aliases_peer, install_material_aliases_other,
}

pub data ManagerCall : Type 0 where
  installs : Str → List Str → Bytes → Bool → ManagerCall
  removes : Str → Str → ManagerCall

unfoldable pub manage : SessionCryptoManager → ManagerCall → SessionCryptoManager
manage s (installs peer sessions root initiator) =
    (install_material_aliases s peer sessions root initiator).1
manage s (removes peer session) = remove_session s peer session

unfoldable pub manage_each : SessionCryptoManager → List ManagerCall → SessionCryptoManager
manage_each s [] = s
manage_each s (c ∷ cs) = manage_each (manage s c) cs

-- Each session has one context, and no handle is used before it is given out.
pub record IsManager (s : SessionCryptoManager) : Type 0 where
  pub unique : Unique s.contexts
  pub used : (k : Scope) (h : ℕ) → get k s.contexts ≡ some h → h < s.next_handle
  pub stored : (h : ℕ) → s.next_handle ≤ h → get h s.heap ≡ none

put_aliases-Unique :
    (peer : Str) (sessions : List Str) (handle : ℕ) (m : List (Scope × ℕ))
    → Unique m
    → Unique (put_aliases peer sessions handle m)
put_aliases-Unique peer [] handle m u = u
put_aliases-Unique peer (session ∷ rest) handle m u =
    put_aliases-Unique peer rest handle (put (peer, session) handle m)
      (put-Unique (peer, session) handle m u)

put_aliases-used :
    (peer : Str) (sessions : List Str) (handle : ℕ) (m : List (Scope × ℕ)) (k : Scope) (h : ℕ)
    → get k (put_aliases peer sessions handle m) ≡ some h
    → (h ≡ handle) ⊎ (get k m ≡ some h)
put_aliases-used peer [] handle m k h e = inr e
put_aliases-used peer (session ∷ rest) handle m k h e =
    elim (put_aliases-used peer rest handle (put (peer, session) handle m) k h e) [
      | inl same ↦ inl same
      | inr found ↦
          ground (arith, get-put (peer, session) k handle m, scope_beq_iff (peer, session) k)
    ]

retain-used :
    (p : Scope → ℕ → Bool) (m : List (Scope × ℕ)) (k : Scope) (h : ℕ)
    → Unique m
    → get k (retain p m) ≡ some h
    → get k m ≡ some h
retain-used p m k h u e = ground (arith, get-retain p k m u)

install-IsManager :
    (s : SessionCryptoManager) (peer : Str) (sessions : List Str) (root : Bytes) (initiator : Bool)
    → IsManager s
    → IsManager (install_material_aliases s peer sessions root initiator).1
unfolding install_material_aliases get
install-IsManager s peer sessions root initiator v =
    let keep : Scope → ℕ → Bool = λ k n. not (str_beq k.0 peer) in
    let kept : List (Scope × ℕ) = retain keep s.contexts in
    record {
      unique =
          put_aliases-Unique peer sessions s.next_handle kept
            (retain-Unique keep s.contexts v.unique);
      used = λ k h e. elim (put_aliases-used peer sessions s.next_handle kept k h e) [
        | inl same ↦ omega arith
        | inr found ↦
            let before = v.used k h (retain-used keep s.contexts k h v.unique found) in omega arith
      ];
      stored = λ h le. ground (arith, v.stored h);
    }

remove_session-IsManager :
    (s : SessionCryptoManager) (peer session : Str)
    → IsManager s
    → IsManager (remove_session s peer session)
unfolding remove_session
remove_session-IsManager s peer session v = elim (Option-cases (get (peer, session) s.contexts)) [
  | inl gone ↦ rw (remove_session, gone) v
  | inr (handle, found) ↦
      let left : List (Scope × ℕ) = delete (peer, session) s.contexts in
      let alive = delete-Unique (peer, session) s.contexts v.unique in
      rw (remove_session, found)
        (record {
          unique = retain-Unique (λ (k : Scope) (h : ℕ). not (h == handle)) left alive;
          used = λ k h e. v.used k h (
              deleted-used k h
                (retain-used (λ (k : Scope) (h : ℕ). not (h == handle)) left k h alive e));
          stored = v.stored;
        })
]
  where
    deleted-used :
        (k : Scope) (h : ℕ)
        → get k (delete (peer, session) s.contexts) ≡ some h
        → get k s.contexts ≡ some h
    deleted-used k h e = ground (arith, get-delete (peer, session) k s.contexts v.unique)

manage_each-IsManager :
    (s : SessionCryptoManager) (cs : List ManagerCall) → IsManager s → IsManager (manage_each s cs)
unfolding manage_each manage
manage_each-IsManager s [] v = v
manage_each-IsManager s (installs peer sessions root initiator ∷ cs) v =
    manage_each-IsManager (install_material_aliases s peer sessions root initiator).1 cs
      (install-IsManager s peer sessions root initiator v)
manage_each-IsManager s (removes peer session ∷ cs) v =
    manage_each-IsManager (remove_session s peer session) cs
      (remove_session-IsManager s peer session v)

new_manager-IsManager : IsManager new_manager
unfolding get
new_manager-IsManager = record { unique = tt; used = λ k h e. absurd (cc e); stored = λ h le. refl }

-- What an installation leaves: one new context of the given material, which no session had, behind
-- every given session of the peer; the other peers and the other contexts as they were.
pub record Installs (s : SessionCryptoManager) (peer : Str) (sessions : List Str) (root : Bytes)
    (initiator : Bool) (handle : ℕ) (after : SessionCryptoManager) : Type 0 where
  pub context : get handle after.heap ≡ some (from_session_root root initiator)
  pub unused : get handle s.heap ≡ none
  pub unshared : (p x : Str) → ¬ (get_context s p x ≡ ok handle)
  pub aliases :
      (session : Str)
      → get_context after peer session
        ≡ (if contains sessions session then ok handle else err e2ee_required)
  pub others :
      (other session : Str)
      → str_beq peer other ≡ false
      → get_context after other session ≡ get_context s other session
  pub heap_of : (h : ℕ) → (h == handle) ≡ false → get h after.heap ≡ get h s.heap

no_alias :
    (s : SessionCryptoManager) (p x : Str) → IsManager s → ¬ (get_context s p x ≡ ok s.next_handle)
unfolding get_context
no_alias s p x v e = elim (Option-cases (get (p, x) s.contexts)) [
  | inl gone ↦ cc (rw (get_context, gone) at e)
  | inr (h, found) ↦
      let same : h ≡ s.next_handle = cc (rw (get_context, found) at e) in
      let below = v.used (p, x) h found in absurd (omega arith)
]

install_fresh :
    (s : SessionCryptoManager) (peer : Str) (sessions : List Str) (root : Bytes) (initiator : Bool)
    → IsManager s
    → ((install_material_aliases s peer sessions root initiator).0 ≡ ok s.next_handle)
      × Installs s peer sessions root initiator s.next_handle
          (install_material_aliases s peer sessions root initiator).1
unfolding install_material_aliases get
install_fresh s peer sessions root initiator v = (
  refl,
  record {
    context = ground arith;
    unused = v.stored s.next_handle (omega arith);
    unshared = λ p x. no_alias s p x v;
    aliases =
        λ session. install_material_aliases_peer s peer sessions root initiator session v.unique;
    others = λ other session.
        install_material_aliases_other s peer other sessions root initiator session v.unique;
    heap_of = λ h other. ground arith;
  },
)

-- After any installations and removals, an installation returns the handle of a context that is new:
-- it is made of the given root and role, no session had it before, and each given session of the
-- peer, and no other session of the peer, has it afterwards. The sessions of other peers and all
-- other contexts are as before.
pub install_material_aliases-Installs :
    (calls : List ManagerCall) (peer : Str) (sessions : List Str) (root : Bytes) (initiator : Bool)
    → (handle : ℕ) × ((install_material_aliases
          (manage_each new_manager calls)
          peer
          sessions
          root
          initiator).0
        ≡ ok handle)
      × Installs
          (manage_each new_manager calls)
          peer
          sessions
          root
          initiator
          handle
          (install_material_aliases (manage_each new_manager calls) peer sessions root initiator).1
install_material_aliases-Installs calls peer sessions root initiator =
    let s : SessionCryptoManager = manage_each new_manager calls in
    let v = manage_each-IsManager new_manager calls new_manager-IsManager in
    let (answer, left) = install_fresh s peer sessions root initiator v in
    (s.next_handle, answer, left)
