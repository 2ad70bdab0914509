-- ===== src/Base/Sets.antt =====
-- `HashSet` as a list of its members, and the queue that remembers the order of insertion.

use mathlib.Core.Path.{◌≡◌, refl, sym, ap, ◌∙◌}
use mathlib.Core.Bool.{Bool, false, ◌||◌, true}
use mathlib.Core.List.{List, [], ◌∷◌, ◌++◌}
use native.Mathlib.Omega.{arith}
use Prim.Native.Nat.{zero, ℕ, suc, ◌+◌, ◌-◌, ◌≤◌}
use ssh_mobile.Base.Tests.{Eq, ltb, if◌then◌else◌, Bool-cases}
use ssh_mobile.Base.Lists.{
  length, drop, length-append, length-drop, drop_nil, drop-drop, drop-append_le,
}
use mathlib.Core.Logic.{inl, inr}

module _ {ℓ} {K : Type ℓ} ⦃e : Eq K⦄ where
  -- `HashSet::contains`, and the same test on a list.
  unfoldable pub contains : List K → K → Bool
  contains [] k = false
  contains (x ∷ xs) k = e.beq x k || contains xs k

  -- `HashSet::remove`.
  unfoldable pub remove : K → List K → List K
  remove k [] = []
  remove k (x ∷ xs) = let rest = remove k xs in if e.beq x k then rest else x ∷ rest

  pub contains-append :
      (xs ys : List K) (k : K) → contains (xs ++ ys) k ≡ (contains xs k || contains ys k)
  unfolding contains
  contains-append [] ys k = refl
  contains-append (x ∷ xs) ys k = ground (arith, contains-append xs ys k)

  pub contains-remove :
      (xs : List K) (j k : K)
      → contains (remove j xs) k ≡ (if e.beq j k then false else contains xs k)
  unfolding contains remove
  contains-remove [] j k = ground arith
  contains-remove (x ∷ xs) j k =
      ground (arith, contains-remove xs j k, e.beq_iff x j, e.beq_iff j k, e.beq_iff x k)

  abbrev pub Distinct : List K → Type 0
  Distinct [] = Unit {0}
  Distinct (x ∷ xs) = (contains xs x ≡ false) × Distinct xs

  pub Distinct-append :
      (xs : List K) (k : K) → Distinct xs → contains xs k ≡ false → Distinct (xs ++ (k ∷ []))
  unfolding contains
  Distinct-append [] k d h = (refl, tt)
  Distinct-append (x ∷ xs) k d h = (
    ground (arith, contains-append xs (k ∷ []) x, e.beq_iff k x, e.beq_iff x k),
    Distinct-append xs k d.1 (ground arith),
  )

  -- `while order.len() > bound { seen.remove(order.pop_front()) }`.
  unfoldable pub evict : ℕ → List K → List K → List K × List K
  evict bound seen [] = (seen, [])
  evict bound seen (x ∷ order) =
      let rest = evict bound (remove x seen) order in
      if ltb bound (length (x ∷ order)) then rest else (seen, x ∷ order)

  -- The set and the queue agree, and the queue holds nothing twice.
  pub record IsWindow (seen order : List K) : Type ℓ where
    pub agree : (k : K) → contains seen k ≡ contains order k
    pub distinct : Distinct order

  -- What joins the set and the end of the queue.
  pub join-IsWindow :
      (seen order : List K) (k : K)
      → IsWindow seen order
      → contains seen k ≡ false
      → IsWindow (k ∷ seen) (order ++ (k ∷ []))
  unfolding contains
  join-IsWindow seen order k w new = record {
    agree = λ j. ground (arith, contains-append order (k ∷ []) j, w.agree j);
    distinct = Distinct-append order k w.distinct (sym (w.agree k) ∙ new);
  }

  pub contains-drop :
      (n : ℕ) (xs : List K) (k : K) → contains (drop n xs) k ≡ true → contains xs k ≡ true
  unfolding contains
  contains-drop zero xs k h = h
  contains-drop (suc n) [] k h = h
  contains-drop (suc n) (x ∷ xs) k h = ground (arith, contains-drop n xs k)

  pub length-remove : (xs : List K) (k : K) → length (remove k xs) ≤ length xs
  unfolding remove
  length-remove [] k = omega arith
  length-remove (x ∷ xs) k = ground (arith, length-remove xs k)

  -- The last `bound` entries.
  abbrev pub recent : ℕ → List K → List K
  recent bound xs = drop (length xs - bound) xs

  pub agree_tail :
      (x : K) (seen order : List K)
      → IsWindow seen (x ∷ order)
      → (k : K) → contains (remove x seen) k ≡ contains order k
  unfolding contains
  agree_tail x seen order w k =
      ground (arith, contains-remove seen x k, w.agree k, w.distinct.0, e.beq_iff x k)

  pub evict-IsWindow :
      (bound : ℕ) (seen order : List K)
      → IsWindow seen order
      → IsWindow (evict bound seen order).0 (evict bound seen order).1
  unfolding evict
  evict-IsWindow bound seen [] w = w
  evict-IsWindow bound seen (x ∷ order) w = elim (Bool-cases (ltb bound (length (x ∷ order)))) [
    | inl over ↦ rw over (
        evict-IsWindow bound (remove x seen) order
          (record { agree = agree_tail x seen order w; distinct = w.distinct.1 }))
    | inr fits ↦ rw fits w
  ]

  pub evict-recent :
      (bound : ℕ) (seen order : List K) → (evict bound seen order).1 ≡ recent bound order
  unfolding evict
  evict-recent bound seen [] = sym (drop_nil (0 - bound))
  evict-recent bound seen (x ∷ order) = elim (Bool-cases (ltb bound (length (x ∷ order)))) [
    | inl over ↦
        let split : suc (length order) - bound ≡ suc (length order - bound) = ground arith in
        rw (over, split) (evict-recent bound (remove x seen) order)
    | inr fits ↦
        let none_left : suc (length order) - bound ≡ 0 = ground arith in rw (fits, none_left)
  ]

  -- Evicting adds nothing to the set.
  pub evict-contains :
      (bound : ℕ) (seen order : List K) (k : K)
      → IsWindow seen order
      → contains seen k ≡ false
      → contains (evict bound seen order).0 k ≡ false
  evict-contains bound seen order k w new = elim (Bool-cases (contains (recent bound order) k)) [
    | inr gone ↦
        (evict-IsWindow bound seen order w).agree k
        ∙ ap (λ xs. contains xs k) (evict-recent bound seen order)
        ∙ gone
    | inl kept ↦
        let was = contains-drop (length order - bound) order k kept in absurd (cc (w.agree k))
  ]

  pub length-recent : (bound : ℕ) (xs : List K) → length (recent bound xs) ≤ bound
  length-recent bound xs = omega (arith, length-drop {ℓ} (length xs - bound) xs)

  -- The newest entry stays.
  pub evict-contains_newest :
      (bound : ℕ) (seen order : List K) (k : K)
      → 1 ≤ bound
      → IsWindow seen (order ++ (k ∷ []))
      → contains (evict bound seen (order ++ (k ∷ []))).0 k ≡ true
  unfolding contains
  evict-contains_newest bound seen order k room w =
      let n : ℕ = length (order ++ (k ∷ [])) - bound in
      let fits : n ≤ length order = omega (arith, length-append {ℓ} order (k ∷ [])) in
      (evict-IsWindow bound seen (order ++ (k ∷ [])) w).agree k
      ∙ ap (λ xs. contains xs k) (evict-recent bound seen (order ++ (k ∷ [])))
      ∙ ap (λ xs. contains xs k) (drop-append_le n order (k ∷ []) fits)
      ∙ contains-append (drop n order) (k ∷ []) k
      ∙ ground (arith, e.beq_iff k k)

  pub recent-recent :
      (bound : ℕ) (xs : List K) (x : K)
      → recent bound (recent bound xs ++ (x ∷ [])) ≡ recent bound (xs ++ (x ∷ []))
  recent-recent bound xs x =
      let k : ℕ = length xs - bound in
      let j : ℕ = length (drop k xs ++ (x ∷ [])) - bound in
      let ends : k + j ≡ length (xs ++ (x ∷ [])) - bound = omega (
        arith,
        length-append {ℓ} xs (x ∷ []),
        length-append {ℓ} (drop k xs) (x ∷ []),
        length-drop {ℓ} k xs,
      ) in
      ap (drop j) (sym (drop-append_le k xs (x ∷ []) (omega arith)))
      ∙ drop-drop j k (xs ++ (x ∷ []))
      ∙ ap (λ n. drop n (xs ++ (x ∷ []))) ends

  pub contains-recent_le :
      (few many : ℕ) (xs : List K) (k : K)
      → few ≤ many
      → contains (recent few xs) k ≡ true
      → contains (recent many xs) k ≡ true
  contains-recent_le few many xs k le h =
      let m : ℕ = length xs - many in
      let n : ℕ = length xs - few - m in
      let ends : m + n ≡ length xs - few = omega arith in
      let split : drop n (recent many xs) ≡ recent few xs =
        drop-drop n m xs ∙ ap (λ i. drop i xs) ends in
      contains-drop n (recent many xs) k (ap (λ ys. contains ys k) split ∙ h)

  -- One more entry moves an entry one place back.
  pub contains-recent_later :
      (bound : ℕ) (xs : List K) (x k : K)
      → contains (recent bound xs) k ≡ true
      → contains (recent (suc bound) (xs ++ (x ∷ []))) k ≡ true
  unfolding contains
  contains-recent_later bound xs x k h =
      let ends : length (xs ++ (x ∷ [])) - suc bound ≡ length xs - bound =
        omega (arith, length-append {ℓ} xs (x ∷ [])) in
      rw
        (
          ends,
          drop-append_le (length xs - bound) xs (x ∷ []) (omega arith),
          contains-append (drop (length xs - bound) xs) (x ∷ []) k,
        )
        (ground arith)

  pub contains-recent_newest :
      (bound : ℕ) (xs : List K) (k : K) → contains (recent (suc bound) (xs ++ (k ∷ []))) k ≡ true
  unfolding contains
  contains-recent_newest bound xs k =
      let ends : length (xs ++ (k ∷ [])) - suc bound ≡ length xs - bound =
        omega (arith, length-append {ℓ} xs (k ∷ [])) in
      rw
        (
          ends,
          drop-append_le (length xs - bound) xs (k ∷ []) (omega arith),
          contains-append (drop (length xs - bound) xs) (k ∷ []) k,
        )
        (ground (arith, e.beq_iff k k))
