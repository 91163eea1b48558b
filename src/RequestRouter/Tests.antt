-- ===== src/RequestRouter/Tests.antt =====
-- Runs of the router, and its theorems at concrete inputs.
use mini_server.Prelude.{◌≡◌, refl, not, ◌&&◌, arith, if◌then◌else◌}
use mini_server.Bytes.{Bytes, codes, beq, find, starts_with}
use mini_server.HttpRequest.{HttpRequest, http_request, post, url_decode}
use mini_server.HttpRequest.UrlDecode.{Encodes, nil, plain, plus}
use mini_server.RequestRouter.{
  Users, route, route_user, form_value, form_loop, pair_value, register_path,
}
use mini_server.RequestRouter.Form.{form_body, user_key}
use mini_server.RequestRouter.Fields.{split_fields, first_value, form_value-split_fields}
use mini_server.RequestRouter.Replies.{route-form_body}

-- "ann" is taken, and "a b" has the password "pw".
abbrev users : Users
users = record {
  register_user = λ u p. not (beq u (codes "ann"));
  login_user = λ u p. beq u (codes "a b") && beq p (codes "pw");
}

abbrev form : Bytes
form = form_body (codes "a+b") (codes "pw")

a_b : Encodes (codes "a+b") (codes "a b")
a_b = plain (omega arith) (omega arith) (plus refl refl (plain (omega arith) (omega arith) nil))

pw : Encodes (codes "pw") (codes "pw")
pw = plain (omega arith) (omega arith) (plain (omega arith) (omega arith) nil)

abbrev login : HttpRequest
login = record http_request { method = post; path = codes "/login"; body = form }

form_value-split_fields_example :
    form_value form user_key ≡ first_value user_key (split_fields form)
form_value-split_fields_example = form_value-split_fields form user_key

route-form_body_example : (route users login).status_code ≡ (
    if beq login.path register_path
    then (if users.register_user (codes "a b") (codes "pw") then 201 else 409)
    else if users.login_user (codes "a b") (codes "pw")
    then 200
    else 401)
route-form_body_example =
    route-form_body users login (codes "a+b") (codes "pw") (codes "a b") (codes "pw") a_b pw
      (ground arith) (ground arith) (λ e. cc e) (λ e. cc e) refl refl

no_form : (route users (record login { body = codes "username=ann&x" })).status_code ≡ 400
unfolding route route_user form_value form_loop pair_value find starts_with beq url_decode
no_form = refl
