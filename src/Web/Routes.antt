-- ===== src/Web/Routes.antt =====
-- src/app.py, the routes of the API: each endpoint behind the authentication that it depends on.
use mathlib.Core.Path.{subst}
use file_scanner.Base.{
  true, ap, String, ◌≡◌, refl, false, Option, none, some, arith, Result, ok, err, ℕ, Bool,
  Bool-cases, inl, inr,
}
use file_scanner.Base.Dict.{Dict}
use file_scanner.Base.Value.{Value, Floats, str}
use file_scanner.Encryption.{Bytes}
use file_scanner.Auth.{Library, JwtSettings}
use file_scanner.Auth.Requests.{HttpRequest, Denied, denied, crashed, auth_sync, auth_async}
use file_scanner.Auth.Binding.{Vouched, authenticate-Vouched}
use file_scanner.Results.{wrapper, enabled, fetch}
use file_scanner.Results.Ownership.{fetch-owner}
use file_scanner.Wire.{of_path, serialize}
use file_scanner.Web.{
  Reply, answer, refused, uncaught, ScanAsyncRequest, Service, State, scan_async, found, job_status,
}

-- An exception of the authentication, as a reply.
abbrev pub of_denied : {F : Type 0} → Denied → Reply F
of_denied (denied code) = refused code
of_denied crashed = uncaught

-- A caller whose `iss` is no text owns no record and has no job: PyJWT takes a text only.
abbrev pub caller_name : {F : Type 0} → Value F → Option String
caller_name (str name) = some name
caller_name _ = none

module _ (fl : Floats) (d : Service fl.F) (lib : Library fl.F) (settings : JwtSettings)
    (issuers : Dict lib.Public) where
  open fl use {F}

  abbrev poll_as : String → String → State F d.backend.S → Option String → Reply F
  poll_as path job_id w none = refused 404
  poll_as path job_id w (some username) = job_status fl d path job_id username w

  abbrev poll_for : String → String → State F d.backend.S → Result Denied (Value F) → Reply F
  poll_for path job_id w (err why) = of_denied why
  poll_for path job_id w (ok who) = poll_as path job_id w (caller_name who)

  -- GET /api/vX.0/jobs/{job_id}
  unfoldable pub get_job : HttpRequest → String → State F d.backend.S → Reply F
  get_job request job_id w = poll_for request.path job_id w (auth_sync lib settings issuers request)

  abbrev post_as :
      HttpRequest
      → String
      → (State F d.backend.S → State F d.backend.S)
      → State F d.backend.S
      → Option String
      → Option (ScanAsyncRequest F)
      → Reply F × State F d.backend.S
  post_as request job_id meanwhile w none body = (uncaught, w)
  post_as request job_id meanwhile w (some username) none = (refused 422, w)
  post_as request job_id meanwhile w (some username) (some body) =
      scan_async fl d request.path job_id username body meanwhile w

  abbrev post_for :
      HttpRequest
      → String
      → (State F d.backend.S → State F d.backend.S)
      → State F d.backend.S
      → Option (ScanAsyncRequest F)
      → Result Denied (Value F)
      → Reply F × State F d.backend.S
  post_for request job_id meanwhile w body (err why) = (of_denied why, w)
  post_for request job_id meanwhile w body (ok who) =
      post_as request job_id meanwhile w (caller_name who) body

  -- POST /api/vX.0/scan-async, where `parse` is the validation of the body by FastAPI.
  -- For a request that fails both, the model answers as the authentication does; which of the two
  -- FastAPI reports is its own.
  unfoldable pub post_scan_async :
      (Bytes → Option (ScanAsyncRequest F))
      → HttpRequest
      → String
      → (State F d.backend.S → State F d.backend.S)
      → State F d.backend.S
      → Reply F × State F d.backend.S
  post_scan_async parse request job_id meanwhile w =
      post_for request job_id meanwhile w (parse request.body)
        (auth_async lib settings issuers request)

  answered_found :
      (path : String) (o : Option (Dict (Value F))) (code : ℕ) (reply : Dict (Value F))
      → found fl d path o ≡ answer code reply
      → (stored : Dict (Value F)) × (o ≡ some stored)
        × (code ≡ 200)
        × (reply ≡ serialize fl stored (of_path path))
  answered_found path none code reply h = cc
  answered_found path (some stored) code reply h =
      (stored, refl, ground (arith, h), ground (arith, h))

  job_status-owner :
      (path job_id username : String) (w : State F d.backend.S) (code : ℕ) (reply : Dict (Value F))
      → job_status fl d path job_id username w ≡ answer code reply
      → (stored : Dict (Value F)) × (code ≡ 200)
        × (reply ≡ serialize fl stored (of_path path))
        × (d.backend.get_result job_id w.store
            ≡ wrapper (record { owner = username; payload = stored }))
  unfolding job_status
  job_status-owner path job_id username w code reply h =
      elim (Bool-cases (enabled d.worker_result_ttl)) [
        | inl on ↦
            let (stored, fetched, is, body) =
              answered_found path (fetch d.backend d.worker_result_ttl job_id username w.store) code
                reply (ground (arith, h, on)) in
            (
              stored,
              is,
              body,
              (fetch-owner d.backend d.worker_result_ttl job_id username w.store stored fetched).1,
            )
        | inr off ↦ absurd (ground (arith, h, off))
      ]

  -- A request that is authenticated as a caller whose name is a text.
  abbrev pub VouchedFor : HttpRequest → Bool → String → Type 0
  VouchedFor request bind_body username =
      Vouched lib settings issuers request bind_body (str username)

  polled :
      (request : HttpRequest) (job_id : String) (w : State F d.backend.S) (code : ℕ)
      (reply : Dict (Value F)) (who : Value F)
      → auth_sync lib settings issuers request ≡ ok who
      → poll_as request.path job_id w (caller_name who) ≡ answer code reply
      → (username : String) × VouchedFor request false username
        × (job_status fl d request.path job_id username w ≡ answer code reply)
  polled request job_id w code reply (str username) known h =
      (username, authenticate-Vouched lib settings issuers request false (str username) known, h)
  polled request job_id w code reply who known h = cc

  poll_passed :
      (request : HttpRequest) (job_id : String) (w : State F d.backend.S) (code : ℕ)
      (reply : Dict (Value F)) (r : Result Denied (Value F))
      → auth_sync lib settings issuers request ≡ r
      → poll_for request.path job_id w r ≡ answer code reply
      → (username : String) × VouchedFor request false username
        × (job_status fl d request.path job_id username w ≡ answer code reply)
  poll_passed request job_id w code reply (err (denied n)) known h = cc
  poll_passed request job_id w code reply (err crashed) known h = cc
  poll_passed request job_id w code reply (ok who) known h =
      polled request job_id w code reply who known h

  -- A poll that is answered is a 200 with the record of the job, in the version of the path, and its
  -- token is vouched for this request and names the owner under whom the record is stored.
  pub get_job-owner :
      (request : HttpRequest) (job_id : String) (w : State F d.backend.S) (code : ℕ)
      (reply : Dict (Value F))
      → get_job request job_id w ≡ answer code reply
      → (username : String) × (stored : Dict (Value F)) × VouchedFor request false username
        × (d.backend.get_result job_id w.store
            ≡ wrapper (record { owner = username; payload = stored }))
        × (code ≡ 200)
        × (reply ≡ serialize fl stored (of_path request.path))
  unfolding get_job
  get_job-owner request job_id w code reply h =
      let (username, vouched, status) =
        poll_passed request job_id w code reply (auth_sync lib settings issuers request) refl h in
      let (stored, is, body, held) =
        job_status-owner request.path job_id username w code reply status in
      (username, stored, vouched, held, is, body)

  -- What stands behind an answer to a request for an asynchronous scan.
  abbrev pub Posted :
      (Bytes → Option (ScanAsyncRequest F))
      → HttpRequest
      → String
      → (State F d.backend.S → State F d.backend.S)
      → State F d.backend.S
      → Reply F × State F d.backend.S
      → Type 0
  Posted parse request job_id meanwhile w r =
      (username : String) × (body : ScanAsyncRequest F) × VouchedFor request true username
      × (parse request.body ≡ some body)
      × (r ≡ scan_async fl d request.path job_id username body meanwhile w)

  posted_as :
      (parse : Bytes → Option (ScanAsyncRequest F)) (request : HttpRequest) (job_id : String)
      (meanwhile : State F d.backend.S → State F d.backend.S) (w : State F d.backend.S) (code : ℕ)
      (reply : Dict (Value F)) (who : Value F) (name : Option String)
      (parsed : Option (ScanAsyncRequest F))
      → auth_async lib settings issuers request ≡ ok who
      → caller_name who ≡ name
      → parse request.body ≡ parsed
      → (post_as request job_id meanwhile w name parsed).0 ≡ answer code reply
      → Posted parse request job_id meanwhile w (post_as request job_id meanwhile w name parsed)
  posted_as parse request job_id meanwhile w code reply who none parsed known named is h = cc
  posted_as parse request job_id meanwhile w code reply who (some n) none known named is h = cc
  posted_as parse request job_id meanwhile w code reply (str n) (some username) (some body) known
        named is h =
      let same : n ≡ username = cc (named) in
      (
        username,
        body,
        subst (VouchedFor request true) same
            (authenticate-Vouched lib settings issuers request true (str n) known),
        is,
        refl,
      )
  posted_as parse request job_id meanwhile w code reply who (some username) (some body) known named
        is h =
      cc

  posted_for :
      (parse : Bytes → Option (ScanAsyncRequest F)) (request : HttpRequest) (job_id : String)
      (meanwhile : State F d.backend.S → State F d.backend.S) (w : State F d.backend.S) (code : ℕ)
      (reply : Dict (Value F)) (r : Result Denied (Value F))
      → auth_async lib settings issuers request ≡ r
      → (post_for request job_id meanwhile w (parse request.body) r).0 ≡ answer code reply
      → Posted parse request job_id meanwhile w
          (post_for request job_id meanwhile w (parse request.body) r)
  posted_for parse request job_id meanwhile w code reply (err (denied n)) known h = cc
  posted_for parse request job_id meanwhile w code reply (err crashed) known h = cc
  posted_for parse request job_id meanwhile w code reply (ok who) known h =
      posted_as parse request job_id meanwhile w code reply who (caller_name who)
        (parse request.body) known refl refl h

  -- An answered request for an asynchronous scan has a token that is vouched for it and for its body,
  -- and is the endpoint's answer to that body for the caller that the token names.
  pub post_scan_async-Posted :
      (parse : Bytes → Option (ScanAsyncRequest F)) (request : HttpRequest) (job_id : String)
      (meanwhile : State F d.backend.S → State F d.backend.S) (w : State F d.backend.S) (code : ℕ)
      (reply : Dict (Value F))
      → (post_scan_async parse request job_id meanwhile w).0 ≡ answer code reply
      → Posted parse request job_id meanwhile w (post_scan_async parse request job_id meanwhile w)
  unfolding post_scan_async
  post_scan_async-Posted parse request job_id meanwhile w code reply h =
      posted_for parse request job_id meanwhile w code reply
        (auth_async lib settings issuers request) refl h

  -- A poll of a caller that is authenticated is the endpoint's answer to that caller.
  pub get_job-job_status :
      (request : HttpRequest) (job_id caller : String) (w : State F d.backend.S)
      → auth_sync lib settings issuers request ≡ ok (str caller)
      → get_job request job_id w ≡ job_status fl d request.path job_id caller w
  unfolding get_job
  get_job-job_status request job_id caller w known = ap (poll_for request.path job_id w) known
