-- ===== src/Download/Chunks.antt =====
-- Cutting a file in chunks, and how many there are.
use file_scanner.Base.{
  ℕ, zero, suc, ◌+◌, ◌-◌, ◌*◌, ◌/◌, ◌≤◌, ◌<◌, ◌≡◌, refl, true, List, [], ◌∷◌, ◌++◌, arith, length,
  take, drop, is_nonempty, take-append-drop, length-drop, Bool-cases, inl, inr, leb, drop_all, All,
  ◌⊎◌, take-append_exact, drop-append_exact, take_all,
}
use mathlib.Core.List.{append-nil}
use native.Mathlib.Nat.{le-div_iff_mul-le}
use file_scanner.Encryption.{Bytes}
use file_scanner.Download.Streaming.{chunks_of, chunks_of-nil}

-- b"".join(chunks)
abbrev pub join : List Bytes → Bytes
join [] = []
join (c ∷ cs) = c ++ join cs

chunks_of-step :
    (f n : ℕ) (bytes : Bytes)
    → is_nonempty bytes ≡ true
    → chunks_of (suc f) n bytes ≡ take n bytes ∷ chunks_of f n (drop n bytes)
chunks_of-step f n [] h = cc
chunks_of-step f n (b ∷ bytes) h = refl

nonempty-append : (x y : Bytes) → is_nonempty x ≡ true → is_nonempty (x ++ y) ≡ true
nonempty-append [] y h = cc
nonempty-append (b ∷ x) y h = refl

-- A full chunk, or a last one, comes off in front.
pub chunks_of-append :
    (g n : ℕ) (x y : Bytes)
    → is_nonempty x ≡ true
    → (length x ≡ n) ⊎ ((length x ≤ n) × (y ≡ []))
    → chunks_of (suc g) n (x ++ y) ≡ x ∷ chunks_of g n y
chunks_of-append g n x y some_left (inl full) = rw (
  chunks_of-step g n (x ++ y) (nonempty-append x y some_left),
  take-append_exact n x y full,
  drop-append_exact n x y full,
)
chunks_of-append g n x y some_left (inr (short, last)) =
    rw (last, append-nil, chunks_of-step g n x some_left, take_all n x short, drop_all n x short)

nonempty-take : (n b : ℕ) (bytes : Bytes) → 0 < n → is_nonempty (take n (b ∷ bytes)) ≡ true
nonempty-take zero b bytes h = elim h [ ]
nonempty-take (suc n) b bytes h = refl

module _ (n : ℕ) (room : 0 < n) where
  pub join-chunks_of :
      (f : ℕ) (bytes : Bytes) → length bytes ≤ f → join (chunks_of f n bytes) ≡ bytes
  join-chunks_of zero [] h = refl
  join-chunks_of zero (b ∷ bytes) h = absurd (omega arith)
  join-chunks_of (suc f) [] h = refl
  join-chunks_of (suc f) (b ∷ bytes) h =
      rw (join-chunks_of f (drop n (b ∷ bytes)) (ground (arith, length-drop n (b ∷ bytes))))
        (take-append-drop n (b ∷ bytes))

  -- Every chunk but the last is full, so there are as few as can be.
  length-chunks_of :
      (f : ℕ) (bytes : Bytes)
      → length bytes ≤ f
      → length (chunks_of f n bytes) * n ≤ length bytes + (n - 1)
  length-chunks_of zero [] h = omega arith
  length-chunks_of zero (b ∷ bytes) h = absurd (omega arith)
  length-chunks_of (suc f) [] h = omega arith
  length-chunks_of (suc f) (b ∷ bytes) h = elim (Bool-cases (leb n (length (b ∷ bytes)))) [
    | inl full ↦
        let ih =
          length-chunks_of f (drop n (b ∷ bytes)) (ground (arith, length-drop n (b ∷ bytes))) in
        ground (arith, ih, length-drop n (b ∷ bytes))
    | inr last ↦ rw (drop_all n (b ∷ bytes) (ground arith), chunks_of-nil f n) (ground arith)
  ]

  pub count-le-ceil :
      (most : ℕ) (f : ℕ) (bytes : Bytes)
      → length bytes ≤ f
      → length bytes ≤ most
      → length (chunks_of f n bytes) ≤ (most + n - 1) / n
  count-le-ceil most f bytes h fits =
      (le-div_iff_mul-le room).1 (omega (arith, length-chunks_of f bytes h))

  -- No chunk is empty.
  pub chunks_of-nonempty :
      (f : ℕ) (bytes : Bytes) → All (λ c. is_nonempty c ≡ true) (chunks_of f n bytes)
  chunks_of-nonempty zero bytes = tt
  chunks_of-nonempty (suc f) [] = tt
  chunks_of-nonempty (suc f) (b ∷ bytes) =
      (nonempty-take n b bytes room, chunks_of-nonempty f (drop n (b ∷ bytes)))
