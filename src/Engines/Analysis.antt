-- ===== src/Engines/Analysis.antt =====
-- src/scanners/jcop.py, `_analyse`: what a content that it returns stands on.
use mathlib.Core.Path.{subst}
use file_scanner.Base.{
  ℕ, zero, suc, ◌+◌, String, ◌≡◌, refl, sym, ◌⊎◌, inl, inr, Bool, true, false, Option, some, arith,
  nat_eq, leb, ltb, Bool-cases, ◌-◌, Result, ok, err,
}
use file_scanner.Base.Dict.{Dict}
use file_scanner.Base.Value.{Value}
use file_scanner.Encryption.{Bytes}
use file_scanner.Engines.{Rendering}
use file_scanner.Engines.Jcop.{
  Response, Service, JcopSettings, Step, done, raised, poll, of_round, of_post, submit, of_lookup,
  Ended, round, go_on, turn, poll_until, first_step, analyse,
}
use file_scanner.Engines.Responses.{
  IsKey, IsFinished, finished-done, finished-poll, of_round-done, of_round-poll, id_of-poll,
  id_of-not_done,
}

module _ {F W : Type 0} (r : Rendering F) (service : Service F W) where
  open service use {lookup, post, sha256_hex}

  module _ (settings : JcopSettings) where
    -- A step that comes to a content has it, or goes on to it.
    go_on-ok :
        (next : String → W → Option (Ended r service settings) × W) (s : Step (Dict (Value F)))
        (w : W) (d : Dict (Value F))
        → (go_on r service settings next s w).0 ≡ some (ok d)
        → (s ≡ done d) ⊎ ((key : String) × (s ≡ poll key) × ((next key w).0 ≡ some (ok d)))
    go_on-ok next (done c) w d h = inl (cc h)
    go_on-ok next (raised trouble) w d h = cc
    go_on-ok next (poll key) w d h = inr (key, refl, h)

    -- One round that comes to a content, and one that goes on.
    of_round-IsFinished :
        (content : Bytes) (key : String) (w : W) (d : Dict (Value F))
        → IsKey r service content key
        → of_round r key (lookup key w).0 ≡ done d
        → IsFinished r service content d
    of_round-IsFinished content key w d is h =
        let (response, answered, status, has, ends) =
          of_round-done r service key (lookup key w).0 d h in
        (key, w, response, is, answered, status, has, ends)

    turn-IsFinished :
        (content : Bytes) (t : Bool) (next : String → W → Option (Ended r service settings) × W)
        (key : String) (w : W) (d : Dict (Value F))
        → ((k : String) (v : W)
            → IsKey r service content k
            → (next k v).0 ≡ some (ok d)
            → IsFinished r service content d)
        → IsKey r service content key
        → (turn r service settings t next key w).0 ≡ some (ok d)
        → IsFinished r service content d
    turn-IsFinished content false next key w d later is h = cc
    turn-IsFinished content true next key w d later is h =
        let slept = service.sleep settings.jcop_poll_interval w in
        let answered = round r service settings key w in
        elim (go_on-ok next (of_round r key answered.0) answered.1 d h) [
          | inl ends ↦ of_round-IsFinished content key slept d is ends
          | inr (k, goes, ends) ↦
              later k answered.1
                (subst (IsKey r service content)
                  (sym (of_round-poll r service key answered.0 k goes)) is)
                ends
        ]

    poll_until-IsFinished :
        (content : Bytes) (fuel deadline : ℕ) (key : String) (w : W) (d : Dict (Value F))
        → IsKey r service content key
        → (poll_until r service settings fuel deadline key w).0 ≡ some (ok d)
        → IsFinished r service content d
    unfolding poll_until
    poll_until-IsFinished content zero deadline key w d is h = cc
    poll_until-IsFinished content (suc fuel) deadline key w d is h =
        turn-IsFinished content (ltb (service.now w) deadline)
          (poll_until r service settings fuel deadline) key w d
          (λ k v. poll_until-IsFinished content fuel deadline k v d) is h

    -- What `_submit` goes on with is the id that it was given.
    of_post-IsKey :
        (content : Bytes) (time : ℕ) (w : W) (answer : Result String (Response F)) (key : String)
        → (post content time w).0 ≡ answer
        → of_post r answer ≡ poll key
        → IsKey r service content key
    of_post-IsKey content time w (err why) key sent h = ground (arith, h)
    of_post-IsKey content time w (ok taken) key sent h =
        elim (Bool-cases (nat_eq taken.status 200)) [
          | inl t ↦
              let (answer, id, has, named, is) =
                id_of-poll r service taken.content key (ground (arith, t, h)) in
              inr (time, w, taken, answer, id, sent, ground (arith, t), has, named, is)
          | inr f ↦ absurd (ground (arith, f, h))
        ]

    of_post-not_done :
        (answer : Result String (Response F)) (d : Dict (Value F)) → of_post r answer ≡ done d → ⊥
    of_post-not_done (err why) d h = ground (arith, h)
    of_post-not_done (ok taken) d h = elim (Bool-cases (nat_eq taken.status 200)) [
      | inl t ↦ id_of-not_done r service taken.content d (ground (arith, t, h))
      | inr f ↦ elim (Bool-cases (nat_eq taken.status 401)) [
        | inl t ↦ absurd (ground (arith, f, t, h))
        | inr g ↦ absurd (ground (arith, f, g, h))
      ]
    ]

    submit-IsKey :
        (content : Bytes) (deadline : ℕ) (w : W) (key : String)
        → (submit r service settings content deadline w).0 ≡ poll key
        → IsKey r service content key
    submit-IsKey content deadline w key h = elim (Bool-cases (leb deadline (service.now w))) [
      | inl late ↦ absurd (ground (arith, late, h))
      | inr timely ↦
          of_post-IsKey content (deadline - service.now w) w
            (post content (deadline - service.now w) w).0 key refl (ground (arith, timely, h))
    ]

    submit-not_done :
        (content : Bytes) (deadline : ℕ) (w : W) (d : Dict (Value F))
        → (submit r service settings content deadline w).0 ≡ done d
        → ⊥
    submit-not_done content deadline w d h = elim (Bool-cases (leb deadline (service.now w))) [
      | inl late ↦ absurd (ground (arith, late, h))
      | inr timely ↦
          of_post-not_done (post content (deadline - service.now w) w).0 d
            (ground (arith, timely, h))
    ]

    -- What the lookup before the loop comes to: a content of a finished analysis, or a key to poll.
    of_lookup-done :
        (content : Bytes) (deadline : ℕ) (w v : W) (answer : Result String (Response F))
        (d : Dict (Value F))
        → (lookup (sha256_hex content) w).0 ≡ answer
        → (of_lookup r service settings (sha256_hex content) content deadline answer v).0 ≡ done d
        → IsFinished r service content d
    of_lookup-done content deadline w v (err why) d asked h = ground (arith, h)
    of_lookup-done content deadline w v (ok response) d asked h =
        elim (Bool-cases (nat_eq response.status 200)) [
          | inl t ↦
              let (has, ends) =
                finished-done r service (sha256_hex content) response.content d
                  (ground (arith, t, h)) in
              (sha256_hex content, w, response, inl refl, asked, ground (arith, t), has, ends)
          | inr f ↦ elim (Bool-cases (nat_eq response.status 404)) [
            | inl n ↦ absurd (submit-not_done content deadline v d (ground (arith, f, n, h)))
            | inr g ↦ elim (Bool-cases (nat_eq response.status 401)) [
              | inl u ↦ absurd (ground (arith, f, g, u, h))
              | inr k ↦ absurd (ground (arith, f, g, k, h))
            ]
          ]
        ]

    of_lookup-poll :
        (content : Bytes) (deadline : ℕ) (v : W) (answer : Result String (Response F))
        (key : String)
        → (of_lookup r service settings (sha256_hex content) content deadline answer v).0 ≡ poll key
        → IsKey r service content key
    of_lookup-poll content deadline v (err why) key h = ground (arith, h)
    of_lookup-poll content deadline v (ok response) key h =
        elim (Bool-cases (nat_eq response.status 200)) [
          | inl t ↦ inl (
              finished-poll r service (sha256_hex content) response.content key
                (ground (arith, t, h)))
          | inr f ↦ elim (Bool-cases (nat_eq response.status 404)) [
            | inl n ↦ submit-IsKey content deadline v key (ground (arith, f, n, h))
            | inr g ↦ elim (Bool-cases (nat_eq response.status 401)) [
              | inl u ↦ absurd (ground (arith, f, g, u, h))
              | inr k ↦ absurd (ground (arith, f, g, k, h))
            ]
          ]
        ]

    -- A content that `_analyse` returns is that of a finished analysis of the file.
    pub analyse-IsFinished :
        (content : Bytes) (w : W) (d : Dict (Value F))
        → (analyse r service settings content w).0 ≡ some (ok d)
        → IsFinished r service content d
    unfolding analyse
    analyse-IsFinished content w d h =
        let deadline = service.now w + settings.jcop_submit_timeout in
        let found = lookup (sha256_hex content) w in
        let first = first_step r service settings content deadline w in
        elim (go_on-ok (poll_until r service settings (suc settings.jcop_submit_timeout) deadline)
          first.0 first.1 d h) [
            | inl ends ↦ of_lookup-done content deadline w found.1 found.0 d refl ends
            | inr (key, goes, ends) ↦
                poll_until-IsFinished content (suc settings.jcop_submit_timeout) deadline key
                  first.1 d (of_lookup-poll content deadline found.1 found.0 key goes) ends
          ]
