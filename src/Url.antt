-- ===== src/Url.antt =====
-- The helpers at the end of src/HttpStream.cpp that split a URL: url2hostname, url2username,
-- url2password. A position is an `Option ℕ`, where `none` is `std::string::npos`.
pub mod Parts
pub mod Authority
use libkolibre_xmlreader.Base.{
  ℕ, ◌+◌, ◌-◌, Bool, true, false, Option, none, some, [], ◌∷◌, ltb, if◌then◌else◌, Bytes, codes,
  length, find, find_from, find_first_of_from, substr, drop,
}

abbrev pub protocol_mark : Bytes
protocol_mark = codes "://"

-- From `hostname_beg` on, once the protocol and the credentials are skipped.
pub hostname_at : ℕ → Bytes → Bytes
hostname_at beg url = elim (find_first_of_from (codes ":/") beg url) [
  | none ↦ drop beg url
  | some end ↦ substr beg (end - beg) url
]

skip_credentials : ℕ → Option ℕ → ℕ
skip_credentials beg none = beg
skip_credentials beg (some at) = at + 1

unfoldable pub url2hostname : Bytes → Bytes
unfolding hostname_at skip_credentials
url2hostname url = elim (find protocol_mark url) [
  | none ↦ []
  | some p ↦ hostname_at (skip_credentials (p + 3) (find_from (codes "@") (p + 3) url)) url
]

-- The part of `url2username` behind the test for `@`.
pub username_before : ℕ → ℕ → Option ℕ → Bytes → Bytes
username_before beg at none url = substr beg (at - beg) url
username_before beg at (some end) url =
    if ltb at end then substr beg (at - beg) url else substr beg (end - beg) url

pub username_from : ℕ → Bytes → Bytes
unfolding username_before
username_from beg url = elim (find_from (codes "@") beg url) [
  | none ↦ []
  | some at ↦ username_before beg at (find_from (codes ":") beg url) url
]

unfoldable pub url2username : Bytes → Bytes
unfolding username_from
url2username url = elim (find protocol_mark url) [ none ↦ [] | some p ↦ username_from (p + 3) url ]

-- The part of `url2password` behind the test for `@`. The test `userpwd_at == npos` that stands
-- there a second time cannot pass; a missing separator is caught by the order of the positions.
pub password_between : ℕ → Option ℕ → Bytes → Bytes
password_between at none url = []
password_between at (some sep) url =
    if ltb at sep then [] else substr (sep + 1) (at - (sep + 1)) url

pub password_from : ℕ → Bytes → Bytes
unfolding password_between
password_from beg url = elim (find_from (codes "@") beg url) [
  | none ↦ []
  | some at ↦ password_between at (find_from (codes ":") beg url) url
]

unfoldable pub url2password : Bytes → Bytes
unfolding password_from
url2password url = elim (find protocol_mark url) [ none ↦ [] | some p ↦ password_from (p + 3) url ]
