-- ===== src/Sql/Texts.antt =====
-- The text of the login query, and its parts.
use mathlib.Core.Path.{subst}
use itba_os_tp1_ipc_2016_q.Base.{
  ℕ, ◌+◌, ◌≤◌, ◌<◌, ◌≡◌, refl, ◌≢◌, sym, arith, inl, inr, Bool-cases, false, List, ◌++◌, some,
  Bytes, codes, length, length-append, append_assoc, All-append, All-right, Lacks, str_eq,
  str_eq→eq,
}
use itba_os_tp1_ipc_2016_q.Arguments.{quote_mark}
use itba_os_tp1_ipc_2016_q.Sql.Query.{
  fit, and_where, create_select_query, set_select_query_table, set_select_query_atribute,
  set_select_query_where, select_query_to_str, to_fields_string, join_fields,
}
use itba_os_tp1_ipc_2016_q.Sql.Process.{Row, close_str, semicolon}
use itba_os_tp1_ipc_2016_q.Sql.Helpers.{login_query}
use itba_os_tp1_ipc_2016_q.Sql.Protocol.{IsQuery}

abbrev before_name : Bytes
before_name = codes "SELECT home,user_id,is_admin FROM users WHERE 1=1 AND username = \""

abbrev between : Bytes
between = codes "\" AND password = \""

-- The text of the query for a login.
abbrev pub login_text : Bytes → Bytes → Bytes
login_text username password = before_name ++ (username ++ (between ++ (password ++ codes "\";")))

pub length-login_text : (u p : Bytes) → length (login_text u p) ≡ length u + length p + 86
length-login_text u p =
    omega (arith, length-append u (between ++ (p ++ codes "\";")), length-append p (codes "\";"))

fit-some : (size : ℕ) (s : Bytes) → length s < size → fit size s ≡ some s
unfolding fit
fit-some size s h = ground arith

abbrev where_user : Bytes → Bytes
where_user u = codes "1=1 AND username = \"" ++ (u ++ codes "\"")

abbrev where_both : Bytes → Bytes → Bytes
where_both u p = where_user u ++ (codes " AND password = \"" ++ (p ++ codes "\""))

length-where_user : (u : Bytes) → length (where_user u) ≡ length u + 21
length-where_user u = omega (arith, length-append u (codes "\""))

length-where_both : (u p : Bytes) → length (where_both u p) ≡ length u + length p + 39
length-where_both u p = omega (
  arith,
  length-append (where_user u) (codes " AND password = \"" ++ (p ++ codes "\"")),
  length-append p (codes "\""),
  length-where_user u,
)

abbrev columns : Bytes
columns = codes "home,user_id,is_admin"

whole :
    (u p : Bytes)
    → codes "SELECT " ++ (columns ++ (codes " FROM users WHERE " ++ (where_both u p ++ codes ";")))
      ≡ login_text u p
whole u p = simp (append_assoc)

-- The query of a login is this text, if name and password are not absurdly long.
pub login_query-text :
    (u p : Bytes) → length u + length p < 800 → login_query u p ≡ some (login_text u p)
unfolding login_query create_select_query set_select_query_table set_select_query_atribute
    set_select_query_where select_query_to_str to_fields_string join_fields and_where fit
login_query-text u p h =
    ground (arith, whole u p, length-where_user u, length-where_both u p, length-login_text u p)

texts : Lacks semicolon before_name × Lacks semicolon between
texts = ground arith

-- What the query has before its last two characters.
abbrev pub login_start : Bytes → Bytes → Bytes
login_start u p = before_name ++ (u ++ (between ++ p))

pub login_start-Lacks :
    (u p : Bytes) → Lacks semicolon u → Lacks semicolon p → Lacks semicolon (login_start u p)
login_start-Lacks u p hu hp =
    let (a, b) = texts in
    let P : ℕ → Type 0 = λ c. c ≢ semicolon in
    All-append P before_name _ a (All-append P u _ hu (All-append P between _ b hp))

pub login_text-start : (u p : Bytes) → login_text u p ≡ login_start u p ++ codes "\";"
login_text-start u p = simp (append_assoc)

pub length-login_start : (u p : Bytes) → length (login_start u p) ≡ length u + length p + 84
length-login_start u p = omega (arith, length-append u (between ++ p))

no_close : (s : Bytes) → str_eq (s ++ codes "\";") close_str ≡ false
no_close s = elim (Bool-cases (str_eq (s ++ codes "\";") close_str)) [
  | inl t ↦
      let h : Lacks quote_mark (s ++ codes "\";") =
        subst (Lacks quote_mark) (sym (str_eq→eq (s ++ codes "\";") close_str t)) (ground arith) in
      let r : Lacks quote_mark (codes "\";") = All-right (λ c. c ≢ quote_mark) s (codes "\";") h in
      absurd (r.0 refl)
  | inr f ↦ f
]

-- A text without a semicolon, and the last two characters, are one query.
pub ends-IsQuery :
    {Database : Type 0} (exec : Database → Bytes → List Row × Database) (s : Bytes)
    → Lacks semicolon s
    → length s ≤ 99
    → IsQuery exec (s ++ codes "\";")
ends-IsQuery exec s h le = record {
  body = s ++ codes "\"";
  shape = simp (append_assoc);
  one_semicolon = All-append (λ c. c ≢ semicolon) s (codes "\"") h (ground arith);
  short = omega (arith, length-append s (codes "\""));
  no_close = no_close s;
}
