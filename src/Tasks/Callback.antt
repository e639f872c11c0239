-- ===== src/Tasks/Callback.antt =====
-- src/tasks.py, `deliver_webhook`: one attempt to push a result to the caller. `json.dumps`,
-- `jwt_auth.sign_webhook` and the session's `post` are parameters.
use file_scanner.Base.{String, ◌<>◌, ◌≡◌, refl, Bool, true, false, Option, none, some}
use file_scanner.Base.Dict.{Dict}
use file_scanner.Base.Value.{Value}
use file_scanner.Tasks.{Webhook}

-- A POST request, which does not follow redirects.
pub record Request : Type 0 where
  pub target : String
  pub body : String
  pub authorization : Option String

-- What the session does: it rejects the host, fails, or has a response, which is a redirect or not
-- and of which `raise_for_status` may raise.
pub data Posted : Type 0 where
  rejected : String → Posted
  failed : String → Posted
  responded : (is_redirect : Bool) → (status_error : Option String) → Posted

-- How the attempt ends. What is raised is retried.
pub data Delivery : Type 0 where
  delivered : Delivery
  dropped : Delivery
  retried : String → Delivery

abbrev pub bearer : Option String → Option String
bearer none = none
bearer (some token) = some ("Bearer " <> token)

abbrev after_post : Posted → Delivery
after_post (rejected why) = dropped
after_post (failed why) = retried why
after_post (responded true e) = retried "webhook returned redirect"
after_post (responded false (some why)) = retried why
after_post (responded false none) = delivered

module _ {F : Type 0} (dumps : Dict (Value F) → String) (sign : String → String → Option String)
    (post : Request → Posted) where
  abbrev pub request_of : Webhook F → Request
  request_of w =
      let body = dumps w.payload in
      record { target = w.target; body = body; authorization = bearer (sign w.target body) }

  -- deliver_webhook
  unfoldable pub deliver_webhook : Webhook F → Delivery
  deliver_webhook w = after_post (post (request_of w))

  after_post_lem : (p : Posted) → after_post p ≡ delivered → p ≡ responded false none
  after_post_lem (rejected why) h = cc
  after_post_lem (failed why) h = cc
  after_post_lem (responded true e) h = cc
  after_post_lem (responded false (some why)) h = cc
  after_post_lem (responded false none) h = refl

  -- A result counts as delivered only if the receiver itself answered the request without a redirect
  -- and without an error status; a token that goes with it signs the target and the body as sent.
  pub deliver_webhook-delivered :
      (w : Webhook F)
      → deliver_webhook w ≡ delivered
      → (r : Request) × (post r ≡ responded false none)
        × (r.target ≡ w.target)
        × (r.body ≡ dumps w.payload)
        × (r.authorization ≡ bearer (sign r.target r.body))
  unfolding deliver_webhook
  deliver_webhook-delivered w h =
      (request_of w, after_post_lem (post (request_of w)) h, refl, refl, refl)
