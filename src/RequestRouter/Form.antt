-- ===== src/RequestRouter/Form.antt =====
-- `RequestRouter::formValue` of the text of a form.
use mini_server.RequestRouter.Fields.{
  glue, split_fields, first_value, split_fields_here, split_fields_later, form_value-split_fields,
}
use mini_server.Prelude.{
  ◌≡◌, refl, ap, ◌∙◌, ◌≢◌, Bool, true, false, none, some, List, [], ◌∷◌, ◌++◌, arith, All,
  drop-append_right, if◌then◌else◌, take-length_append,
}
use mini_server.Bytes.{Bytes, codes, beq}
use mini_server.Bytes.Find.{find-append_none}
use mini_server.HttpRequest.UrlDecode.{Encodes, url_decode-Encodes}
use mini_server.RequestRouter.{pair_value, or_else, form_value}

-- Each field of a form body, in the order of the fields, with no "&" in any of them.
unfoldable pub join_fields : Bytes → List Bytes → Bytes
join_fields f [] = f
join_fields f (g ∷ gs) = f ++ b'&' ∷ join_fields g gs

abbrev pub IsField : Bytes → Type 0
IsField f = All (λ c. c ≢ b'&') f

split_fields_plain : (f : Bytes) → IsField f → split_fields f ≡ f ∷ []
unfolding split_fields
split_fields_plain [] h = refl
split_fields_plain (c ∷ f) h = split_fields_later c f h.0 ∙ ap (glue c) (split_fields_plain f h.1)

split_fields-append : (f s : Bytes) → IsField f → split_fields (f ++ b'&' ∷ s) ≡ f ∷ split_fields s
unfolding split_fields
split_fields-append [] s h = split_fields_here b'&' s refl
split_fields-append (c ∷ f) s h =
    split_fields_later c (f ++ b'&' ∷ s) h.0 ∙ ap (glue c) (split_fields-append f s h.1)

split_fields-join_fields :
    (f : Bytes) (fs : List Bytes)
    → IsField f
    → All IsField fs
    → split_fields (join_fields f fs) ≡ f ∷ fs
unfolding join_fields
split_fields-join_fields f [] h hs = split_fields_plain f h
split_fields-join_fields f (g ∷ gs) h hs =
    split_fields-append f (join_fields g gs) h
    ∙ ap (◌∷◌ f) (split_fields-join_fields g gs hs.0 hs.1)

-- `formValue` of the text of a form gives the decoded value of its first field of that name.
form_value-join_fields :
    (f : Bytes) (fs : List Bytes) (key : Bytes)
    → IsField f
    → All IsField fs
    → form_value (join_fields f fs) key ≡ first_value key (f ∷ fs)
form_value-join_fields f fs key h hs =
    form_value-split_fields (join_fields f fs) key
    ∙ ap (first_value key) (split_fields-join_fields f fs h hs)

-- The field `name=value`, the value in an encoded form.
abbrev pub field : Bytes → Bytes → Bytes
field name value = name ++ b'=' ∷ value

pair_value-field :
    (key name e s : Bytes)
    → All (λ c. c ≢ b'=') name
    → Encodes e s
    → pair_value key (field name e) ≡ (if beq name key then some s else none)
unfolding pair_value
pair_value-field key name e s h k =
    rw
      (
        find-append_none b'=' [] name e h,
        take-length_append name (b'=' ∷ e),
        drop-append_right name b'=' e,
        url_decode-Encodes e s k,
      )
      refl

or_else-if :
    (b : Bool) (v w : Bytes) → or_else (if b then some v else none) w ≡ (if b then v else w)
or_else-if true v w = refl
or_else-if false v w = refl

first_value-field :
    (key name e s : Bytes) (fs : List Bytes)
    → All (λ c. c ≢ b'=') name
    → Encodes e s
    → first_value key (field name e ∷ fs) ≡ (if beq name key then s else first_value key fs)
unfolding first_value
first_value-field key name e s fs h k =
    ap (λ o. or_else o (first_value key fs)) (pair_value-field key name e s h k)
    ∙ or_else-if (beq name key) s (first_value key fs)

-- The two names of the form.
abbrev pub user_key : Bytes
user_key = codes "username"

abbrev pub password_key : Bytes
password_key = codes "password"

user_field-IsField : (e : Bytes) → IsField e → IsField (field user_key e)
user_field-IsField e h = ground arith

password_field-IsField : (e : Bytes) → IsField e → IsField (field password_key e)
password_field-IsField e h = ground arith

user_key_plain : All (λ c. c ≢ b'=') user_key
user_key_plain = ground arith

password_key_plain : All (λ c. c ≢ b'=') password_key
password_key_plain = ground arith

-- The body of a login form.
abbrev pub form_body : Bytes → Bytes → Bytes
form_body e e' = join_fields (field user_key e) (field password_key e' ∷ [])

-- The body of a login form, its two values in any encoding without "&", gives back both values.
pub form_value-form_body :
    (e e' username password : Bytes)
    → Encodes e username
    → Encodes e' password
    → IsField e
    → IsField e'
    → (form_value (form_body e e') user_key ≡ username)
      × (form_value (form_body e e') password_key ≡ password)
unfolding beq
form_value-form_body e e' username password k k' h h' = (
  read user_key ∙ first_value-field user_key user_key e username rest user_key_plain k,
  read password_key
      ∙ first_value-field password_key user_key e username rest user_key_plain k
      ∙ first_value-field password_key password_key e' password [] password_key_plain k',
)
  where
    rest : List Bytes
    rest = field password_key e' ∷ []

    read :
        (key : Bytes) → form_value (form_body e e') key ≡ first_value key (field user_key e ∷ rest)
    read key =
        form_value-join_fields (field user_key e) rest key (user_field-IsField e h)
          (password_field-IsField e' h', tt)
