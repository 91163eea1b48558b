-- ===== src/RequestRouter.antt =====
-- request_router.h and request_router.cpp: registration and login by form posts.
-- What the user service answers at the time of the call is an argument.
pub mod Fields
pub mod Form
pub mod Replies
mod Tests
use mini_server.Prelude.{
  ℕ, zero, suc, ◌+◌, Bool, true, false, not, ◌||◌, Option, none, some, [], ◌∷◌, drop, if◌then◌else◌,
  length, take,
}
use mini_server.Bytes.{Bytes, codes, beq, find}
use mini_server.HttpRequest.{HttpRequest, HttpMethod, post, url_decode}

-- What the router asks of the user service.
pub record Users : Type 0 where
  pub register_user : Bytes → Bytes → Bool
  pub login_user : Bytes → Bytes → Bool

pub record RoutedResponse : Type 0 where
  pub status_code : ℕ
  pub body : Bytes
  pub content_type : Bytes

abbrev json : Bytes
json = codes "application/json; charset=utf-8"

abbrev pub reply : ℕ → Bytes → RoutedResponse
reply status_code body = record { status_code = status_code; body = body; content_type = json }

abbrev pub register_path : Bytes
register_path = codes "/register"

-- RequestRouter::handles
unfoldable pub handles : HttpRequest → Bool
handles request = beq request.path register_path || beq request.path (codes "/login")

-- The value of a pair `name=value` whose name is the key.
abbrev pair_value_at : Bytes → Bytes → Option ℕ → Option Bytes
pair_value_at key pair none = none
pair_value_at key pair (some eq) =
    if beq (take eq pair) key then some (url_decode (drop (eq + 1) pair)) else none

unfoldable pub pair_value : Bytes → Bytes → Option Bytes
pair_value key pair = pair_value_at key pair (find (b'=' ∷ []) pair)

abbrev pub or_else : Option Bytes → Bytes → Bytes
or_else none other = other
or_else (some v) other = v

-- The loop of `formValue`; `rest` is the body from `start`, the fuel bounds the number of pairs.
unfoldable pub form_loop : ℕ → Bytes → Bytes → Bytes
form_loop zero key rest = []
form_loop (suc fuel) key rest = elim (find (b'&' ∷ []) rest) [
  | none ↦ or_else (pair_value key rest) []
  | some e ↦ or_else (pair_value key (take e rest)) (form_loop fuel key (drop (e + 1) rest))
]

-- RequestRouter::formValue; each round but the last takes one byte at least.
unfoldable pub form_value : Bytes → Bytes → Bytes
unfolding form_loop
form_value body key = form_loop (suc (length body)) key body

abbrev is_post : HttpMethod → Bool
is_post post = true
is_post _ = false

-- The part of `route` behind the checks.
unfoldable pub route_user : Users → Bytes → Bytes → Bytes → RoutedResponse
route_user users path username password =
    if beq path register_path
    then (if users.register_user username password
        then reply 201 (codes "{\"message\":\"registered\"}")
        else reply 409 (codes "{\"error\":\"username already exists\"}"))
    else if users.login_user username password
    then reply 200 (codes "{\"message\":\"login ok\"}")
    else reply 401 (codes "{\"error\":\"invalid credentials\"}")

abbrev pub is_empty_text : Bytes → Bool
is_empty_text [] = true
is_empty_text (c ∷ cs) = false

-- RequestRouter::route
unfoldable pub route : Users → HttpRequest → RoutedResponse
route users request =
    let username = form_value request.body (codes "username") in
    let password = form_value request.body (codes "password") in
    if not (is_post request.method)
    then reply 405 (codes "{\"error\":\"method not allowed\"}")
    else if is_empty_text username || is_empty_text password
    then reply 400 (codes "{\"error\":\"username and password required\"}")
    else route_user users request.path username password
