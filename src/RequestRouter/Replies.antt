-- ===== src/RequestRouter/Replies.antt =====
-- `RequestRouter::route`: which reply a request gets.
use mini_server.Prelude.{◌≡◌, refl, ◌≢◌, false, [], ◌∷◌, arith, if◌then◌else◌}
use mini_server.Bytes.{Bytes, beq}
use mini_server.HttpRequest.{HttpRequest, post}
use mini_server.HttpRequest.UrlDecode.{Encodes}
use mini_server.RequestRouter.{Users, route, route_user, is_empty_text, register_path}
use mini_server.RequestRouter.Form.{form_body, IsField, form_value-form_body}

is_empty_text_ne : (s : Bytes) → s ≢ [] → is_empty_text s ≡ false
is_empty_text_ne [] h = absurd (h refl)
is_empty_text_ne (c ∷ s) h = refl

route_user_lem :
    (users : Users) (path username password : Bytes)
    → (route_user users path username password).status_code ≡ (
        if beq path register_path
        then (if users.register_user username password then 201 else 409)
        else if users.login_user username password
        then 200
        else 401)
unfolding route_user
route_user_lem users path username password = ground arith

-- A posted login form with two values that are not empty reaches the user service with exactly these
-- values; on the register path it is a registration, on any other a login. The reply is 201 or 409,
-- 200 or 401, as the service answers.
pub route-form_body :
    (users : Users) (r : HttpRequest) (e e' username password : Bytes)
    → Encodes e username
    → Encodes e' password
    → IsField e
    → IsField e'
    → username ≢ []
    → password ≢ []
    → r.method ≡ post
    → r.body ≡ form_body e e'
    → (route users r).status_code ≡ (
        if beq r.path register_path
        then (if users.register_user username password then 201 else 409)
        else if users.login_user username password
        then 200
        else 401)
unfolding route
route-form_body users r e e' username password k k' h h' n n' m b =
    let (u, p) = form_value-form_body e e' username password k k' h h' in
    rw (m, b, u, p, is_empty_text_ne username n, is_empty_text_ne password n')
      (route_user_lem users r.path username password)
