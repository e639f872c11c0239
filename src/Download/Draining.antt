-- ===== src/Download/Draining.antt =====
-- src/tasks.py, the buffer of `_write_decrypted` and its draining.
use mathlib.Core.List.{append_assoc}
use file_scanner.Base.{
  ℕ, zero, suc, ◌≤◌, ◌<◌, ◌≡◌, refl, sym, ◌∙◌, true, false, ◌++◌, arith, length, take, drop, leb,
  Result, ok, err, ◌>>=◌, Bool-cases, inl, inr, ◌⊎◌, length-append, length-drop, take-append_left,
  drop-append_left,
}
use file_scanner.Encryption.{Bytes}
use file_scanner.Download.{Progress, Job, Fault, take_chunk, drain, feed}

pub Result-cases {ℓ κ} :
    {E : Type ℓ} {A : Type κ} (r : Result E A) → ((a : A) × (r ≡ ok a)) ⊎ ((e : E) × (r ≡ err e))
Result-cases (ok a) = inl (a, refl)
Result-cases (err e) = inr (e, refl)

pub >>=-assoc {ℓ κ} :
    {E : Type ℓ} {A B C : Type κ} (m : Result E A) (f : A → Result E B) (g : B → Result E C)
    → (m >>= f >>= g) ≡ (m >>= λ a. f a >>= g)
>>=-assoc (ok a) f g = refl
>>=-assoc (err e) f g = refl

pub >>=-ok {ℓ κ} : {E : Type ℓ} {A : Type κ} (m : Result E A) → (m >>= ok) ≡ m
>>=-ok (ok a) = refl
>>=-ok (err e) = refl

-- Two continuations that agree on what the first call returns.
bind_congr {ℓ κ} :
    {E : Type ℓ} {A B : Type κ} (m : Result E A) (f g : A → Result E B)
    → ((a : A) → m ≡ ok a → f a ≡ g a)
    → (m >>= f) ≡ (m >>= g)
bind_congr (ok a) f g h = h a refl
bind_congr (err e) f g h = refl

-- More bytes at the end of the buffer.
abbrev pub extend : Progress → Bytes → Progress
extend st c = record st { buffer = st.buffer ++ c }

module _ (j : Job) where
  pub buffer-take_chunk :
      (blob rest : Bytes) (st s : Progress) → take_chunk j blob rest st ≡ ok s → s.buffer ≡ rest
  unfolding take_chunk
  buffer-take_chunk blob rest st s h = ground arith

  -- One chunk is decrypted alike whatever waits behind it.
  take_chunk-extend :
      (blob rest c : Bytes) (st : Progress)
      → take_chunk j blob (rest ++ c) (extend st c)
        ≡ (take_chunk j blob rest st >>= λ s. ok (extend s c))
  unfolding take_chunk
  take_chunk-extend blob rest c st = ground arith

  -- One round of the inner loop.
  abbrev next_chunk : Progress → Result Fault Progress
  next_chunk st = take_chunk j (take j.blob_size st.buffer) (drop j.blob_size st.buffer) st

  pub drain_more :
      (f : ℕ) (st : Progress)
      → leb j.blob_size (length st.buffer) ≡ true
      → drain j (suc f) st ≡ (next_chunk st >>= drain j f)
  unfolding drain
  drain_more f st h = rw (h, drain)

  pub drain_done :
      (f : ℕ) (st : Progress) → leb j.blob_size (length st.buffer) ≡ false → drain j f st ≡ ok st
  unfolding drain
  drain_done zero st h = refl
  drain_done (suc f) st h = rw (h, drain)

  module _ (room : 0 < j.blob_size) where
    next_chunk-lt :
        (st s : Progress)
        → leb j.blob_size (length st.buffer) ≡ true
        → next_chunk st ≡ ok s
        → length s.buffer < length st.buffer
    next_chunk-lt st s h e =
        rw (buffer-take_chunk (take j.blob_size st.buffer) (drop j.blob_size st.buffer) st s e)
          (ground (arith, length-drop j.blob_size st.buffer))

    drain-fuel :
        (f g : ℕ) (st : Progress)
        → length st.buffer ≤ f
        → length st.buffer ≤ g
        → drain j f st ≡ drain j g st
    drain-fuel zero g st hf hg =
        drain_done zero st (ground arith) ∙ sym (drain_done g st (ground arith))
    drain-fuel (suc f) zero st hf hg =
        drain_done (suc f) st (ground arith) ∙ sym (drain_done zero st (ground arith))
    drain-fuel (suc f) (suc g) st hf hg = elim (Bool-cases (leb j.blob_size (length st.buffer))) [
      | inr short ↦ drain_done (suc f) st short ∙ sym (drain_done (suc g) st short)
      | inl more ↦
          rw (drain_more f st more, drain_more g st more)
            (elim (Result-cases (next_chunk st)) [
              | inr (e, failed) ↦ rw failed
              | inl (s, taken) ↦
                  let shorter = next_chunk-lt st s more taken in
                  rw taken (drain-fuel f g s (omega arith) (omega arith))
            ])
    ]

    drain-le : (f : ℕ) (st s : Progress) → drain j f st ≡ ok s → length s.buffer ≤ length st.buffer
    drain-le zero st s h = unfold drain in ground arith
    drain-le (suc f) st s h = elim (Bool-cases (leb j.blob_size (length st.buffer))) [
      | inr short ↦ ground (arith, drain_done (suc f) st short)
      | inl more ↦ elim (Result-cases (next_chunk st)) [
        | inr (e, failed) ↦ ground (arith, drain_more f st more)
        | inl (s', taken) ↦
            ground (arith, drain_more f st more, next_chunk-lt st s' more taken, drain-le f s' s)
      ]
    ]

    -- With enough fuel the loop ends by its test.
    pub drain-short :
        (f : ℕ) (st s : Progress)
        → length st.buffer ≤ f
        → drain j f st ≡ ok s
        → length s.buffer < j.blob_size
    drain-short zero st s hf h = unfold drain in ground arith
    drain-short (suc f) st s hf h = elim (Bool-cases (leb j.blob_size (length st.buffer))) [
      | inr short ↦ ground (arith, drain_done (suc f) st short)
      | inl more ↦ elim (Result-cases (next_chunk st)) [
        | inr (e, failed) ↦ ground (arith, drain_more f st more)
        | inl (s', taken) ↦
            ground (arith, drain_more f st more, next_chunk-lt st s' more taken, drain-short f s' s)
      ]
    ]

    next_chunk-extend :
        (st : Progress) (c : Bytes)
        → leb j.blob_size (length st.buffer) ≡ true
        → next_chunk (extend st c) ≡ (next_chunk st >>= λ s. ok (extend s c))
    next_chunk-extend st c h =
        rw
          (
            take-append_left j.blob_size st.buffer c (ground arith),
            drop-append_left j.blob_size st.buffer c (ground arith),
          )
          (take_chunk-extend (take j.blob_size st.buffer) (drop j.blob_size st.buffer) c st)

    -- Draining before more bytes arrive changes nothing.
    drain-extend :
        (f : ℕ) (st : Progress) (c : Bytes)
        → length (st.buffer ++ c) ≤ f
        → drain j f (extend st c) ≡ (drain j f st >>= λ s. drain j f (extend s c))
    drain-extend zero st c hf = unfold drain in refl
    drain-extend (suc f) st c hf = elim (Bool-cases (leb j.blob_size (length st.buffer))) [
      | inr short ↦ rw (drain_done (suc f) st short)
      | inl more ↦
          rw
            (
              drain_more f st more,
              drain_more f (extend st c) (ground (arith, length-append st.buffer c)),
              next_chunk-extend st c more,
            )
            (elim (Result-cases (next_chunk st)) [
              | inr (e, failed) ↦ rw failed
              | inl (s, taken) ↦
                  let shorter = next_chunk-lt st s more taken in
                  let fits : length (s.buffer ++ c) ≤ f =
                    omega (arith, length-append {0} s.buffer c, length-append {0} st.buffer c) in
                  rw taken (
                    drain-extend f s c fits
                    ∙ bind_congr (drain j f s) _ _ (λ s' done.
                      drain-fuel f (suc f) (extend s' c)
                        (omega (
                          arith,
                          drain-le f s s' done,
                          length-append {0} s.buffer c,
                          length-append {0} s'.buffer c,
                        ))
                        (omega (
                          arith,
                          drain-le f s s' done,
                          length-append {0} s.buffer c,
                          length-append {0} s'.buffer c,
                        ))))
            ])
    ]

    pub feed-append :
        (c d : Bytes) (st : Progress) → feed j (c ++ d) st ≡ (feed j c st >>= feed j d)
    unfolding feed
    feed-append c d st =
        let n = length (st.buffer ++ c ++ d) in
        rw (← append_assoc st.buffer c d) (
          drain-extend n (extend st c) d (omega arith)
          ∙ rw
              (drain-fuel n (length (st.buffer ++ c)) (extend st c)
                (omega (arith, length-append {0} (st.buffer ++ c) d)) (omega arith))
              (bind_congr (drain j (length (st.buffer ++ c)) (extend st c)) _ _ (λ s done.
                drain-fuel n (length (s.buffer ++ d)) (extend s d)
                  (omega (
                    arith,
                    drain-le (length (st.buffer ++ c)) (extend st c) s done,
                    length-append {0} (st.buffer ++ c) d,
                    length-append {0} s.buffer d,
                  ))
                  (omega arith))))
