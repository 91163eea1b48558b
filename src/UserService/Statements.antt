-- ===== src/UserService/Statements.antt =====
-- The statements of the user service, and the two values inside their quotes.
use mini_server.Prelude.{ℕ, ◌≡◌, refl, ap, ◌∙◌, List, [], ◌∷◌, ◌++◌, if◌then◌else◌, ◌==◌}
use mini_server.Bytes.{Bytes, codes}
use mini_server.UserService.{Mysql, register_sql, login_sql}

-- Where a reader of a statement stands: outside the quotes, inside, or behind a backslash inside.
pub data Mode : Type 0 where
  outside inside behind_backslash : Mode

abbrev pub glue : ℕ → List Bytes → List Bytes
glue c [] = (c ∷ []) ∷ []
glue c (f ∷ fs) = (c ∷ f) ∷ fs

-- The texts between single quotes, with their backslashes; a backslash takes the next byte with it.
unfoldable pub quoted : Mode → Bytes → List Bytes
quoted outside [] = []
quoted inside [] = [] ∷ []
quoted behind_backslash [] = [] ∷ []
quoted outside (c ∷ s) =
    let enter = quoted inside s in let stay = quoted outside s in if c == 39 then enter else stay
quoted inside (c ∷ s) =
    let leave = [] ∷ quoted outside s in
    let skip = glue c (quoted behind_backslash s) in
    let stay = glue c (quoted inside s) in if c == 39 then leave else if c == 92 then skip else stay
quoted behind_backslash (c ∷ s) = glue c (quoted inside s)

abbrev pub glue_all : Bytes → List Bytes → List Bytes
glue_all [] fs = fs
glue_all (c ∷ s) fs = glue c (glue_all s fs)

-- What `mysql_real_escape_string` promises: its result stands inside quotes as one text.
pub record IsEscape (escape : Bytes → Bytes) : Type 0 where
  pub stays_inside :
      (s rest : Bytes) → quoted inside (escape s ++ rest) ≡ glue_all (escape s) (quoted inside rest)

glue_all-closed : (e : Bytes) (fs : List Bytes) → glue_all e ([] ∷ fs) ≡ e ∷ fs
glue_all-closed [] fs = refl
glue_all-closed (c ∷ e) fs = ap (glue c) (glue_all-closed e fs)

module _ (m : Mysql) (h : IsEscape m.escape) (username password : Bytes) where
  quoted-value :
      (value rest : Bytes)
      → quoted inside (m.escape value ++ 39 ∷ rest) ≡ m.escape value ∷ quoted outside rest
  unfolding quoted
  quoted-value value rest =
      h.stays_inside value (39 ∷ rest) ∙ glue_all-closed (m.escape value) (quoted outside rest)

  -- With a client that escapes as promised: whatever the two values hold, the texts in quotes in the two statements are exactly the two escaped
  -- values, so neither value reaches the statement outside its quotes.
  pub quoted-statements :
      (quoted outside (register_sql m username password)
        ≡ m.escape username ∷ m.escape password ∷ [])
      × (quoted outside (login_sql m username password)
          ≡ m.escape username ∷ m.escape password ∷ [])
  unfolding quoted register_sql login_sql
  quoted-statements = (
    quoted-value username (codes ", '" ++ (m.escape password ++ codes "');"))
        ∙ ap (◌∷◌ (m.escape username)) (quoted-value password (codes ");")),
    quoted-value username (codes " AND password = '" ++ (m.escape password ++ codes "' LIMIT 1;"))
        ∙ ap (◌∷◌ (m.escape username)) (quoted-value password (codes " LIMIT 1;")),
  )
