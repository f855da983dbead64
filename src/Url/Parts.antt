-- ===== src/Url/Parts.antt =====
-- Positions in a URL that is written from its parts.
use mathlib.Core.Option
use libkolibre_xmlreader.Base.{
  ℕ, ◌+◌, ◌-◌, ◌≡◌, refl, ap, ◌∙◌, true, false, none, some, [], ◌∷◌, ◌++◌, arith, Bytes, codes,
  length, find, find_from, contains_byte, drop, substr, find_text-append, drop-append, drop-drop,
  take-append, find_first_of, find_first_of-append, take, append-nil,
}
use libkolibre_xmlreader.Url.{protocol_mark, hostname_at}

-- A URL: its protocol, `://` and what follows.
abbrev pub url_of : Bytes → Bytes → Bytes
url_of scheme rest = scheme ++ (protocol_mark ++ rest)

-- A port, a path or nothing, which ends a host name.
abbrev pub EndsHost : Bytes → Type 0
EndsHost [] = Unit {0}
EndsHost (c ∷ rest) = contains_byte c (codes ":/") ≡ true

pub find-protocol :
    (scheme rest : Bytes)
    → contains_byte b':' scheme ≡ false
    → find protocol_mark (url_of scheme rest) ≡ some (length scheme)
find-protocol scheme rest no_colon =
    find_text-append b':' (codes "//") scheme (protocol_mark ++ rest) no_colon refl

pub drop-protocol : (scheme rest : Bytes) → drop (length scheme + 3) (url_of scheme rest) ≡ rest
drop-protocol scheme rest =
    drop-drop (length scheme) 3 _ (url_of scheme rest) refl
    ∙ ap (drop 3) (drop-append scheme (protocol_mark ++ rest))

-- Behind a front and one byte.
pub drop-front :
    (beg k : ℕ) (url front : Bytes) (c : ℕ) (rest : Bytes)
    → drop beg url ≡ front ++ c ∷ rest
    → k ≡ beg + length front + 1
    → drop k url ≡ rest
drop-front beg k url front c rest h e =
    drop-drop beg (length front + 1) k url (omega arith)
    ∙ ap (drop (length front + 1)) h
    ∙ drop-drop (length front) 1 _ (front ++ c ∷ rest) refl
    ∙ ap (drop 1) (drop-append front (c ∷ rest))

pub take-eq : (n : ℕ) (xs ys : Bytes) → n ≡ length xs → take n (xs ++ ys) ≡ xs
take-eq n xs ys e = rw e (take-append xs ys)

pub hostname_at_lem :
    (beg : ℕ) (url host tail : Bytes)
    → drop beg url ≡ host ++ tail
    → find_first_of (codes ":/") host ≡ none
    → EndsHost tail
    → hostname_at beg url ≡ host
unfolding hostname_at
hostname_at_lem beg url host [] e h t =
    rw (e, hostname_at) (rw append-nil (rw (h, hostname_at) (e ∙ append-nil host)))
hostname_at_lem beg url host (c ∷ rest) e h t =
    rw (e, hostname_at)
      (rw (find_first_of-append (codes ":/") host c rest h t, hostname_at)
        (ap (take (beg + length host - beg)) e ∙ take-eq _ host (c ∷ rest) (omega arith)))

-- A cut out of the URL, read off what stands from its first position on.
pub substr-front :
    (k n : ℕ) (url front rest : Bytes)
    → drop k url ≡ front ++ rest
    → n ≡ length front
    → substr k n url ≡ front
substr-front k n url front rest d e = ap (take n) d ∙ take-eq n front rest e

-- A search behind the protocol.
pub find_from-url_of :
    (p scheme rest : Bytes) {i : ℕ}
    → find p rest ≡ some i
    → find_from p (length scheme + 3) (url_of scheme rest) ≡ some (length scheme + 3 + i)
find_from-url_of p scheme rest e =
    ap (λ s. Option.map (λ i. length scheme + 3 + i) (find p s)) (drop-protocol scheme rest)
    ∙ ap (Option.map (λ i. length scheme + 3 + i)) e
