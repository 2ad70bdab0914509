-- ===== src/Media/AnnexB.antt =====
-- The test of H.264 access units: `is_valid_annex_b` of
-- native/network_core/crates/network-webrtc/src/media/queue.rs.
use ssh_mobile.Base.{
  ℕ, zero, suc, ◌+◌, ◌%◌, ◌≤◌, ◌≡◌, refl, Bool, true, false, ◌||◌, not, List, [], ◌∷◌, Option, none,
  some, is_some, ltb, leb, ◌==◌, if◌then◌else◌, length, get_or, drop, arith, Bool-cases,
  Option-cases, inl, inr,
}

abbrev pub Bytes : Type 0
Bytes = List ℕ

abbrev pub starts_with3 : Bytes → Bool
starts_with3 (a ∷ (b ∷ (c ∷ rest))) = if a == 0 then (if b == 0 then c == 1 else false) else false
starts_with3 _ = false

abbrev pub starts_with4 : Bytes → Bool
starts_with4 (a ∷ rest) = if a == 0 then (starts_with3 rest) else false
starts_with4 [] = false

-- The loop of `next_start_code` on the bytes from an index on. Too few bytes start with no code.
unfoldable pub scan_start_code : Bytes → ℕ → Option (ℕ × ℕ)
scan_start_code [] index = none
scan_start_code (b ∷ bs) index =
    let rest = scan_start_code bs (index + 1) in
    if starts_with3 (b ∷ bs)
    then some (index, 3)
    else if starts_with4 (b ∷ bs)
    then some (index, 4)
    else rest

unfoldable pub next_start_code : Bytes → ℕ → Option (ℕ × ℕ)
next_start_code payload from = scan_start_code (drop from payload) from

-- `map_or(payload.len(), ..)`.
abbrev pub end_of : Option (ℕ × ℕ) → ℕ → ℕ
end_of none size = size
end_of (some (start, code)) size = start

-- The loop of `is_valid_annex_b`; `none` when the fuel is too small.
unfoldable pub check_nalus : ℕ → Bytes → ℕ → Bool → Option Bool
check_nalus zero payload index found = if ltb index (length payload) then none else some found
check_nalus (suc fuel) payload index found =
    if not (ltb index (length payload)) then some found else (elim (next_start_code payload index) [
      | none ↦ some false
      | some (start, code) ↦
          let nalu = start + code in
          let next = end_of (next_start_code payload nalu) (length payload) in
          let rest = check_nalus fuel payload next true in
          if leb (length payload) nalu
          then some false
          else if leb next nalu || get_or payload nalu 0 % 32 == 0
          then some false
          else rest
    ])

abbrev pub or_false : Option Bool → Bool
or_false none = false
or_false (some b) = b

unfoldable pub is_valid_annex_b : Bytes → Bool
is_valid_annex_b payload = or_false (check_nalus (length payload) payload 0 false)

scan_start_code-bound :
    (bs : Bytes) (index start code : ℕ)
    → scan_start_code bs index ≡ some (start, code)
    → (index ≤ start) × (3 ≤ code)
unfolding scan_start_code
scan_start_code-bound [] index start code h = absurd cc
scan_start_code-bound (b ∷ bs) index start code h =
    ground (arith, scan_start_code-bound bs (index + 1) start code)

next_start_code-bound :
    (payload : Bytes) (from start code : ℕ)
    → next_start_code payload from ≡ some (start, code)
    → (from ≤ start) × (3 ≤ code)
unfolding next_start_code
next_start_code-bound payload from start code h =
    scan_start_code-bound (drop from payload) from start code h

-- Each round goes on behind the start code that it found, so a fuel of the bytes that are left
-- gives an answer.
check_nalus-enough :
    (fuel : ℕ) (payload : Bytes) (index : ℕ) (found : Bool)
    → length payload ≤ index + fuel
    → is_some (check_nalus fuel payload index found) ≡ true
unfolding check_nalus
check_nalus-enough zero payload index found h = ground arith
check_nalus-enough (suc fuel) payload index found h =
    elim (Bool-cases (ltb index (length payload))) [
      | inr done ↦ rw done
      | inl more ↦ elim (Option-cases (next_start_code payload index)) [
        | inl missing ↦ rw (more, check_nalus, missing)
        | inr ((start, code), there) ↦
            let next = end_of (next_start_code payload (start + code)) (length payload) in
            let bound = next_start_code-bound payload index start code there in
            elim (Bool-cases (leb (length payload) (start + code))) [
              | inl short ↦ rw (more, check_nalus, there, short)
              | inr inside ↦
                  elim (Bool-cases
                    (leb next (start + code) || get_or payload (start + code) 0 % 32 == 0)) [
                      | inl bad ↦ rw (more, check_nalus, there, inside, bad)
                      | inr good ↦
                          rw (more, check_nalus, there, inside, good)
                            (check_nalus-enough fuel payload next true (ground (arith, bound)))
                    ]
            ]
      ]
    ]

-- The test of an access unit always reaches an answer of its own: the fuel, which is the size of
-- the payload, is never used up.
pub is_valid_annex_b-total :
    (payload : Bytes)
    → check_nalus (length payload) payload 0 false ≡ some (is_valid_annex_b payload)
unfolding is_valid_annex_b
is_valid_annex_b-total payload =
    answered (check_nalus (length payload) payload 0 false)
      (check_nalus-enough (length payload) payload 0 false (omega arith))
  where
    answered : (r : Option Bool) → is_some r ≡ true → r ≡ some (or_false r)
    answered none h = absurd cc
    answered (some b) h = refl
