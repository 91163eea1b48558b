-- ===== src/UserService/Tests.antt =====
-- Runs of the user service, and its theorems at concrete inputs.
use mini_server.Prelude.{
  ℕ, ◌≡◌, refl, ap, ◌∙◌, inl, inr, true, false, ◌||◌, some, [], ◌∷◌, ◌++◌, Bool-cases,
  if◌then◌else◌, ◌==◌,
}
use mini_server.Bytes.{Bytes, codes}
use mini_server.DatabasePool.{DatabasePool, acquire, destroy_lease}
use mini_server.UserService.{Mysql, register_sql, login_sql, login_ok, login_user}
use mini_server.UserService.Statements.{
  quoted, outside, inside, glue, glue_all, IsEscape, quoted-statements,
}

-- A backslash in front of each quote and each backslash.
unfoldable escape : Bytes → Bytes
escape [] = []
escape (c ∷ s) = if c == 39 || c == 92 then 92 ∷ c ∷ escape s else c ∷ escape s

quoted_plain :
    (c : ℕ) (s : Bytes)
    → (c == 39) ≡ false
    → (c == 92) ≡ false
    → quoted inside (c ∷ s) ≡ glue c (quoted inside s)
unfolding quoted
quoted_plain c s h k = rw (h, k) refl

escape-IsEscape : IsEscape escape
unfolding escape quoted
escape-IsEscape = record { stays_inside = go }
  where
    go :
        (s rest : Bytes)
        → quoted inside (escape s ++ rest) ≡ glue_all (escape s) (quoted inside rest)
    go [] rest = refl
    go (c ∷ s) rest = elim (Bool-cases (c == 39)) [
      | inl quote ↦ rw quote (ap (λ fs. glue 92 (glue c fs)) (go s rest))
      | inr other ↦ elim (Bool-cases (c == 92)) [
        | inl slash ↦ rw (other, slash) (ap (λ fs. glue 92 (glue c fs)) (go s rest))
        | inr plain ↦
            rw (other, plain)
              (quoted_plain c (escape s ++ rest) other plain ∙ ap (glue c) (go s rest))
      ]
    ]

-- A database that takes every statement and finds one row.
abbrev mysql : Mysql
mysql = record { escape = escape; query = λ sql. true; result_rows = λ sql. some 1 }

abbrev attack : Bytes
attack = codes "x' OR '1'='1"

quoted-statements_example :
    (quoted outside (register_sql mysql attack (codes "pw"))
      ≡ escape attack ∷ escape (codes "pw") ∷ [])
    × (quoted outside (login_sql mysql attack (codes "pw"))
        ≡ escape attack ∷ escape (codes "pw") ∷ [])
quoted-statements_example = quoted-statements mysql escape-IsEscape attack (codes "pw")

abbrev two : DatabasePool
two = record { pool_size = 2; all = 10 ∷ 11 ∷ []; available = 11 ∷ 10 ∷ [] }

logged_in :
    login_user mysql attack (codes "pw") two ≡ some (true, record two { available = 10 ∷ 11 ∷ [] })
unfolding login_user login_ok acquire destroy_lease
logged_in = refl
