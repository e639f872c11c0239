-- ===== src/Scanner/Registry/Cache.antt =====
-- src/scanner.py, the cache of `get_scanner`, and calls that read it.
use mathlib.Core.Path.{subst}
use file_scanner.Base.{
  String, ◌≡◌, refl, sym, ap, ◌∙◌, Bool, true, false, Option, none, some, List, [], ◌∷◌, arith,
  eq_iff, Result, ok, err, Option-cases, inl, inr,
}
use file_scanner.Base.Dict.{Dict, get, get-set, get-nil, set}
use file_scanner.Scanner.Registry.{
  Registered, Engine, Backends, Loaded, Raised, Reg, give, ◌>>=◌, follow, refuse, builders, store,
  get_scanner,
}
use file_scanner.Scanner.Registry.Resolve.{
  available, check_names, resolve_scanners, requested, unavailable,
}

module _ {F : Type 0} where
  pub Coherent : Backends F → Dict (Engine F) → Type 0
  Coherent b cache =
      (k : String) (e : Engine F) → get k cache ≡ some e → get k (builders b) ≡ some (ok e)

  unfoldable pub Settles : {A : Type 0} → Backends F → Reg F A → Type 0
  Settles b m =
      (cache : Dict (Engine F))
      → Coherent b cache
      → ((m cache).0 ≡ (m []).0) × Coherent b (m cache).1

module _ {F : Type 0} (b : Backends F) where
  pub nil-Coherent : Coherent b []
  unfolding Coherent
  nil-Coherent k e h = cc (get-nil {V = Engine F} k)

  pub give-Settles : {A : Type 0} (r : Result Raised A) → Settles b (give r)
  unfolding Settles
  give-Settles r cache co = (refl, co)

  pub refuse-Settles : (t : Bool) (e : Raised) → Settles b (refuse t e)
  refuse-Settles true e = give-Settles (err e)
  refuse-Settles false e = give-Settles (ok tt)

  follow-Settles :
      {A B : Type 0} (f : A → Reg F B)
      → ((a : A) → Settles b (f a))
      → (p q : Result Raised A × Dict (Engine F)) → p.0 ≡ q.0
      → Coherent b p.1
      → Coherent b q.1
      → ((follow f p).0 ≡ (follow f q).0) × Coherent b (follow f p).1
  unfolding Settles
  follow-Settles f h (ok a, c) (ok a', c') e co co' =
      (cc (e, (h a c co).0, (h a' c' co').0), (h a c co).1)
  follow-Settles f h (ok a, c) (err x, c') e co co' = cc
  follow-Settles f h (err x, c) (ok a, c') e co co' = cc
  follow-Settles f h (err x, c) (err x', c') e co co' = (cc, co)

  pub >>=-Settles :
      {A B : Type 0} (m : Reg F A) (f : A → Reg F B)
      → Settles b m
      → ((a : A) → Settles b (f a))
      → Settles b (m >>= f)
  unfolding Settles
  >>=-Settles m f hm hf cache co =
      follow-Settles f hf (m cache) (m []) (hm cache co).0 (hm cache co).1 (hm [] nil-Coherent).1

  -- A backend that the builders give may be in the cache.
  pub set-Coherent :
      (n : String) (e : Engine F) (cache : Dict (Engine F))
      → get n (builders b) ≡ some (ok e)
      → Coherent b cache
      → Coherent b (set n e cache)
  unfolding Coherent
  set-Coherent n e cache h co k e' g =
      ground (arith, get-set k n e cache, eq_iff n k, co k e', h, g)

  store-Settles :
      (n : String) (o : Option (Result String (Engine F))) (cache : Dict (Engine F))
      → get n (builders b) ≡ o
      → Coherent b cache
      → ((store n o cache).0 ≡ (store n o []).0) × Coherent b (store n o cache).1
  store-Settles n none cache h co = (refl, co)
  store-Settles n (some (err w)) cache h co = (refl, co)
  store-Settles n (some (ok e)) cache h co = (refl, set-Coherent n e cache h co)

  get_scanner_miss :
      (n : String) (cache : Dict (Engine F))
      → get n cache ≡ none
      → get_scanner b n cache ≡ store n (get n (builders b)) cache
  unfolding get_scanner
  get_scanner_miss n cache h = ground (arith, h)

  get_scanner_hit :
      (n : String) (e : Engine F) (cache : Dict (Engine F))
      → get n cache ≡ some e
      → get_scanner b n cache ≡ (ok e, cache)
  unfolding get_scanner
  get_scanner_hit n e cache h = ground (arith, h)

  store_ready :
      (n : String) (e : Engine F) (o : Option (Result String (Engine F))) (cache : Dict (Engine F))
      → (store n o cache).0 ≡ ok e
      → o ≡ some (ok e)
  store_ready n e none cache h = cc
  store_ready n e (some (err w)) cache h = cc
  store_ready n e (some (ok e')) cache h = cc

  store_answer :
      (n : String) (e : Engine F) (cache : Dict (Engine F))
      → get n (builders b) ≡ some (ok e)
      → (store n (get n (builders b)) cache).0 ≡ ok e
  store_answer n e cache h = ground (arith, h)

  pub get_scanner-Settles : (n : String) → Settles b (get_scanner b n)
  unfolding Settles Coherent
  get_scanner-Settles n cache co = elim (Option-cases (get n cache)) [
    | inl h ↦
        let found = store-Settles n (get n (builders b)) cache refl co in
        (
          ap (λ t. t.0) (get_scanner_miss n cache h)
              ∙ found.0
              ∙ sym (ap (λ t. t.0) (get_scanner_miss n [] (get-nil n))),
          subst (λ t. Coherent b t.1) (sym (get_scanner_miss n cache h)) found.1,
        )
    | inr (e, h) ↦ (
      ap (λ t. t.0) (get_scanner_hit n e cache h)
          ∙ sym (store_answer n e [] (co n e h))
          ∙ sym (ap (λ t. t.0) (get_scanner_miss n [] (get-nil n))),
      subst (λ t. Coherent b t.1) (sym (get_scanner_hit n e cache h)) co,
    )
  ]

  pub get_scanner-ready :
      (n : String) (e : Engine F) (cache : Dict (Engine F))
      → Coherent b cache
      → (get_scanner b n cache).0 ≡ ok e
      → get n (builders b) ≡ some (ok e)
  unfolding Settles
  get_scanner-ready n e cache co h = store_ready n e (get n (builders b)) [] (
      ap (λ t. t.0) (sym (get_scanner_miss n [] (get-nil n)))
      ∙ sym ((get_scanner-Settles n cache co).0)
      ∙ h)

  -- A backend that is known and configured is what `get_scanner` gives.
  pub get_scanner-answer :
      (n : String) (e : Engine F) (cache : Dict (Engine F))
      → Coherent b cache
      → get n (builders b) ≡ some (ok e)
      → (get_scanner b n cache).0 ≡ ok e
  unfolding Settles
  get_scanner-answer n e cache co h =
      (get_scanner-Settles n cache co).0
      ∙ ap (λ t. t.0) (get_scanner_miss n [] (get-nil n))
      ∙ store_answer n e [] h

  pub available-Settles : (n : String) → Settles b (available b n)
  unfolding Settles
  available-Settles n cache co = (
    ap (λ r. unavailable r) (get_scanner-Settles n cache co).0,
    (get_scanner-Settles n cache co).1,
  )

  check_names-Settles : (ns : List String) → Settles b (check_names b ns)
  unfolding check_names
  check_names-Settles [] = give-Settles (ok tt)
  check_names-Settles (n ∷ ns) =
      >>=-Settles _ _ (refuse-Settles _ _)
        λ _. >>=-Settles _ _ (available-Settles n) λ _. check_names-Settles ns

  -- From a cache that holds what the builders give, the answer to a request is the one from an empty
  -- cache, and the cache still holds what they give.
  pub resolve_scanners-cache :
      (loads : String → Loaded) (s : Registered) (categories scanners : List String)
      (cache : Dict (Engine F))
      → Coherent b cache
      → ((resolve_scanners b loads s categories scanners cache).0
          ≡ (resolve_scanners b loads s categories scanners []).0)
        × Coherent b (resolve_scanners b loads s categories scanners cache).1
  unfolding resolve_scanners Settles
  resolve_scanners-cache loads s categories scanners cache co =
      (>>=-Settles (give (requested s loads categories scanners)) _ (give-Settles _) λ names.
          >>=-Settles _ _ (refuse-Settles _ _)
            λ _. >>=-Settles _ _ (check_names-Settles names) λ _. give-Settles (ok names))
        cache co
