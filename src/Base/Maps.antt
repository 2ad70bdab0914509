-- ===== src/Base/Maps.antt =====
-- `HashMap` as a list of its entries, each key once. The list's order is never relied on: code
-- that iterates a hash map takes the order as a parameter.
use Prim.Native.Nat.{ℕ, ◌+◌, ◌≤◌}
use mathlib.Core.Path.{◌≡◌, refl}
use mathlib.Core.Bool.{Bool, true, false}
use mathlib.Core.Option.{Option, none, some}
use mathlib.Core.List.{List, [], ◌∷◌}
use native.Mathlib.Omega.{arith}
use ssh_mobile.Base.Tests.{Eq, if◌then◌else◌, is_some}
use ssh_mobile.Base.Lists.{length}

module _ {ℓ κ} {K : Type ℓ} {V : Type κ} ⦃e : Eq K⦄ where
  -- `get`.
  unfoldable pub get : K → List (K × V) → Option V
  get k [] = none
  get k ((j, v) ∷ m) = if e.beq j k then some v else get k m

  -- `contains_key`.
  abbrev pub has : K → List (K × V) → Bool
  has k m = is_some (get k m)

  -- `insert`, which overwrites.
  unfoldable pub put : K → V → List (K × V) → List (K × V)
  put k v [] = (k, v) ∷ []
  put k v ((j, w) ∷ m) = let rest = put k v m in if e.beq j k then (k, v) ∷ m else (j, w) ∷ rest

  -- `remove`.
  unfoldable pub delete : K → List (K × V) → List (K × V)
  delete k [] = []
  delete k ((j, w) ∷ m) = let rest = delete k m in if e.beq j k then m else (j, w) ∷ rest

  -- `retain`.
  unfoldable pub retain : (K → V → Bool) → List (K × V) → List (K × V)
  retain p [] = []
  retain p ((j, w) ∷ m) = let rest = retain p m in if p j w then (j, w) ∷ rest else rest

  -- A write through `get_mut`.
  unfoldable pub modify : K → (V → V) → List (K × V) → List (K × V)
  modify k f [] = []
  modify k f ((j, w) ∷ m) =
      let rest = modify k f m in if e.beq j k then (j, f w) ∷ m else (j, w) ∷ rest

  -- Every key once.
  abbrev pub Unique : List (K × V) → Type 0
  Unique [] = Unit {0}
  Unique ((j, w) ∷ m) = (has j m ≡ false) × Unique m

  -- The sum of a weight over the values.
  unfoldable pub total : (V → ℕ) → List (K × V) → ℕ
  total f [] = 0
  total f ((j, w) ∷ m) = f w + total f m

  pub get-put :
      (k j : K) (v : V) (m : List (K × V))
      → get j (put k v m) ≡ (if e.beq k j then some v else get j m)
  unfolding get put
  get-put k j v [] = refl
  get-put k j v ((i, w) ∷ m) =
      ground (arith, e.beq_iff k j, e.beq_iff i k, e.beq_iff i j, get-put k j v m)

  pub get-modify :
      (k j : K) (f : V → V) (m : List (K × V))
      → get j (modify k f m)
        ≡ (if e.beq k j then (elim (get j m) [ none ↦ none | some v ↦ some (f v) ]) else get j m)
  unfolding get modify
  get-modify k j f [] = ground arith
  get-modify k j f ((i, w) ∷ m) =
      ground (arith, e.beq_iff k j, e.beq_iff i k, e.beq_iff i j, get-modify k j f m)

  pub get-delete :
      (k j : K) (m : List (K × V))
      → Unique m
      → get j (delete k m) ≡ (if e.beq k j then none else get j m)
  unfolding get delete
  get-delete k j [] u = ground arith
  get-delete k j ((i, w) ∷ m) u =
      ground (arith, e.beq_iff k j, e.beq_iff i k, e.beq_iff i j, get-delete k j m u.1)

  pub get-retain :
      (p : K → V → Bool) (j : K) (m : List (K × V))
      → Unique m
      → get j (retain p m)
        ≡ (elim (get j m) [ none ↦ none | some v ↦ if p j v then some v else none ])
  unfolding get retain
  get-retain p j [] u = refl
  get-retain p j ((i, w) ∷ m) u = ground (arith, e.beq_iff i j, get-retain p j m u.1)

  pub has-put :
      (k j : K) (v : V) (m : List (K × V))
      → has j m ≡ false
      → e.beq j k ≡ false
      → has j (put k v m) ≡ false
  has-put k j v m h n = ground (arith, get-put k j v m, e.beq_iff k j, e.beq_iff j k)

  pub has-delete : (k j : K) (m : List (K × V)) → has j m ≡ false → has j (delete k m) ≡ false
  unfolding get delete
  has-delete k j [] h = refl
  has-delete k j ((i, w) ∷ m) h = ground (arith, e.beq_iff i j, has-delete k j m)

  pub has-retain :
      (p : K → V → Bool) (j : K) (m : List (K × V)) → has j m ≡ false → has j (retain p m) ≡ false
  unfolding get retain
  has-retain p j [] h = refl
  has-retain p j ((i, w) ∷ m) h = ground (arith, e.beq_iff i j, has-retain p j m)

  pub has-modify : (k j : K) (f : V → V) (m : List (K × V)) → has j (modify k f m) ≡ has j m
  has-modify k j f m = ground (arith, get-modify k j f m)

  pub put-Unique : (k : K) (v : V) (m : List (K × V)) → Unique m → Unique (put k v m)
  unfolding put get
  put-Unique k v [] u = (refl, tt)
  put-Unique k v ((j, w) ∷ m) u =
      ground (arith, e.beq_iff j k, put-Unique k v m u.1, has-put k j v m)

  pub delete-Unique : (k : K) (m : List (K × V)) → Unique m → Unique (delete k m)
  unfolding delete
  delete-Unique k [] u = tt
  delete-Unique k ((j, w) ∷ m) u = ground (arith, delete-Unique k m u.1, has-delete k j m)

  pub retain-Unique : (p : K → V → Bool) (m : List (K × V)) → Unique m → Unique (retain p m)
  unfolding retain
  retain-Unique p [] u = tt
  retain-Unique p ((j, w) ∷ m) u = ground (arith, retain-Unique p m u.1, has-retain p j m)

  pub modify-Unique : (k : K) (f : V → V) (m : List (K × V)) → Unique m → Unique (modify k f m)
  unfolding modify
  modify-Unique k f [] u = tt
  modify-Unique k f ((j, w) ∷ m) u = ground (arith, modify-Unique k f m u.1, has-modify k j f m)

  pub length-put_new :
      (k : K) (v : V) (m : List (K × V)) → has k m ≡ false → length (put k v m) ≡ length m + 1
  unfolding put get
  length-put_new k v [] h = omega arith
  length-put_new k v ((j, w) ∷ m) h = ground (arith, length-put_new k v m)

  pub length-put : (k : K) (v : V) (m : List (K × V)) → length (put k v m) ≤ length m + 1
  unfolding put
  length-put k v [] = omega arith
  length-put k v ((j, w) ∷ m) = ground (arith, length-put k v m)

  pub length-delete : (k : K) (m : List (K × V)) → length (delete k m) ≤ length m
  unfolding delete
  length-delete k [] = omega arith
  length-delete k ((j, w) ∷ m) = ground (arith, length-delete k m)

  pub length-delete_some :
      (k : K) (m : List (K × V)) → has k m ≡ true → length (delete k m) + 1 ≡ length m
  unfolding delete get
  length-delete_some k [] h = cc
  length-delete_some k ((j, w) ∷ m) h = ground (arith, length-delete_some k m)

  pub length-retain : (p : K → V → Bool) (m : List (K × V)) → length (retain p m) ≤ length m
  unfolding retain
  length-retain p [] = omega arith
  length-retain p ((j, w) ∷ m) = ground (arith, length-retain p m)

  pub length-modify : (k : K) (f : V → V) (m : List (K × V)) → length (modify k f m) ≡ length m
  unfolding modify
  length-modify k f [] = refl
  length-modify k f ((j, w) ∷ m) = ground (arith, length-modify k f m)

  pub total-put_new :
      (f : V → ℕ) (k : K) (v : V) (m : List (K × V))
      → has k m ≡ false
      → total f (put k v m) ≡ total f m + f v
  unfolding total put get
  total-put_new f k v [] h = omega arith
  total-put_new f k v ((j, w) ∷ m) h = ground (arith, total-put_new f k v m)

  pub total-delete :
      (f : V → ℕ) (k : K) (v : V) (m : List (K × V))
      → get k m ≡ some v
      → total f (delete k m) + f v ≡ total f m
  unfolding total delete get
  total-delete f k v [] h = cc
  total-delete f k v ((j, w) ∷ m) h = ground (arith, total-delete f k v m)

  pub total-modify :
      (f : V → ℕ) (k : K) (g : V → V) (m : List (K × V))
      → ((v : V) → f (g v) ≡ f v)
      → total f (modify k g m) ≡ total f m
  unfolding total modify
  total-modify f k g [] h = refl
  total-modify f k g ((j, w) ∷ m) h = ground (arith, total-modify f k g m h, h w)
