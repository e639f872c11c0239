-- ===== src/Engines/Responses.antt =====
-- src/scanners/jcop.py, what a single response of the service says.

use file_scanner.Base.{
  ℕ, String, ◌≡◌, refl, sym, ap, ◌∙◌, ◌⊎◌, inl, inr, true, Option, none, some, arith, nat_eq,
  Bool-cases, Option-cases, Result, ok, err,
}
use file_scanner.Base.Dict.{Dict, get}
use file_scanner.Base.Value.{Value}
use file_scanner.Encryption.{Bytes}
use file_scanner.Engines.{Rendering, truth, text}
use file_scanner.Engines.Jcop.{Response, Service, done, poll, finished, id_of, of_round}

module _ {F W : Type 0} (r : Rendering F) (service : Service F W) where
  open service use {lookup, post, sha256_hex}

  -- A key under which JCOP has this file: its hash, or the id that a 200 to a POST of it gave.
  abbrev pub IsKey : Bytes → String → Type 0
  IsKey content key =
      (key ≡ sha256_hex content)
      ⊎ ((time : ℕ) × (w : W) × (taken : Response F) × (answer : Dict (Value F)) × (id : Value F)
          × ((post content time w).0 ≡ ok taken)
          × (taken.status ≡ 200)
          × (taken.content ≡ some answer)
          × (get "id" answer ≡ some id)
          × (key ≡ text r id))

  -- A 200 to a GET under such a key had this content, and said that it is done.
  abbrev pub IsFinished : Bytes → Dict (Value F) → Type 0
  IsFinished content d =
      (key : String) × (w : W) × (response : Response F) × IsKey content key
      × ((lookup key w).0 ≡ ok response)
      × (response.status ≡ 200)
      × (response.content ≡ some d)
      × (truth r (get "done" d) ≡ true)

  -- What a 200 to a lookup that is done says, and that one that is not goes on with its key.
  pub finished-done :
      (key : String) (c : Option (Dict (Value F))) (d : Dict (Value F))
      → finished r key c ≡ done d
      → (c ≡ some d) × (truth r (get "done" d) ≡ true)
  finished-done key none d h = ground (arith, h)
  finished-done key (some c) d h = elim (Bool-cases (truth r (get "done" c))) [
    | inl t ↦
        let same : c ≡ d = ground (arith, t, h) in
        (ap (λ x. some x) same, ap (λ x. truth r (get "done" x)) (sym same) ∙ t)
    | inr f ↦ absurd (ground (arith, f, h))
  ]

  pub finished-poll :
      (key : String) (c : Option (Dict (Value F))) (k : String)
      → finished r key c ≡ poll k
      → k ≡ key
  finished-poll key none k h = ground (arith, h)
  finished-poll key (some c) k h = elim (Bool-cases (truth r (get "done" c))) [
    | inl t ↦ absurd (ground (arith, t, h))
    | inr f ↦ ground (arith, f, h)
  ]

  -- The same of a round of the loop.
  pub of_round-done :
      (key : String) (answer : Result String (Response F)) (d : Dict (Value F))
      → of_round r key answer ≡ done d
      → (response : Response F) × (answer ≡ ok response)
        × (response.status ≡ 200)
        × (response.content ≡ some d)
        × (truth r (get "done" d) ≡ true)
  of_round-done key (err why) d h = ground (arith, h)
  of_round-done key (ok response) d h = elim (Bool-cases (nat_eq response.status 200)) [
    | inl t ↦
        let (same, ends) = finished-done key response.content d (ground (arith, t, h)) in
        (response, refl, ground (arith, t), same, ends)
    | inr f ↦ absurd (ground (arith, f, h))
  ]

  pub of_round-poll :
      (key : String) (answer : Result String (Response F)) (k : String)
      → of_round r key answer ≡ poll k
      → k ≡ key
  of_round-poll key (err why) k h = ground (arith, h)
  of_round-poll key (ok response) k h = elim (Bool-cases (nat_eq response.status 200)) [
    | inl t ↦ finished-poll key response.content k (ground (arith, t, h))
    | inr f ↦ ground (arith, f, h)
  ]

  -- What is polled after a POST is the id that it gave, and a POST gives no content.
  pub id_of-poll :
      (c : Option (Dict (Value F))) (key : String)
      → id_of r c ≡ poll key
      → (answer : Dict (Value F)) × (id : Value F) × (c ≡ some answer)
        × (get "id" answer ≡ some id)
        × (key ≡ text r id)
  id_of-poll none key h = ground (arith, h)
  id_of-poll (some answer) key h = elim (Option-cases (get "id" answer)) [
    | inl lost ↦ absurd (ground (arith, lost, h))
    | inr (id, has) ↦ (answer, id, refl, has, ground (arith, has, h))
  ]

  pub id_of-not_done : (c : Option (Dict (Value F))) (d : Dict (Value F)) → id_of r c ≡ done d → ⊥
  id_of-not_done none d h = ground (arith, h)
  id_of-not_done (some answer) d h = elim (Option-cases (get "id" answer)) [
    | inl lost ↦ absurd (ground (arith, lost, h))
    | inr (id, has) ↦ absurd (ground (arith, has, h))
  ]
