-- ===== src/Handler/Handles/Owners.antt =====
-- No easy handle of src/DataStreamHandler.cpp is in two places: it is free, or one stream has it.
use libkolibre_xmlreader.Base.{
  ℕ, ◌≡◌, refl, subst, inl, inr, ◌&&◌, ◌∙◌, Bool, true, false, List, [], ◌∷◌, ◌++◌, ◌==◌, ◌||◌,
  if◌then◌else◌, arith, Bool-cases, Bytes, codes, starts_with,
}
use libkolibre_xmlreader.Base.Outcome.{Outcome, done, ◌>>=◌, bind-eq-done}
use libkolibre_xmlreader.Handler.{DataStreamHandler}
use libkolibre_xmlreader.Handler.Handles.{
  Opened, http_stream, file_stream, tidied, take_handle, cached_for, open_stream, without,
  release_handle,
}

-- Whether a handle stands in a list.
abbrev pub has : ℕ → List ℕ → Bool
has a [] = false
has a (b ∷ rest) = a == b || has a rest

-- No handle stands in the list twice.
abbrev pub NoneTwice : List ℕ → Type 0
NoneTwice [] = Unit {0}
NoneTwice (a ∷ rest) = (has a rest ≡ false) × NoneTwice rest

-- No handle is free twice, in use twice, or both.
pub record HasOwners (free_handles multi : List ℕ) : Type 0 where
  pub free_once : NoneTwice free_handles
  pub used_once : NoneTwice multi
  pub apart : (a : ℕ) → has a multi ≡ true → has a free_handles ≡ false

has-without : (a b : ℕ) (xs : List ℕ) → has b (without a xs) ≡ true → has b xs ≡ true
has-without a b [] e = e
has-without a b (x ∷ xs) e = ground (arith, has-without a b xs)

without-NoneTwice : (a : ℕ) (xs : List ℕ) → NoneTwice xs → NoneTwice (without a xs)
without-NoneTwice a [] d = d
without-NoneTwice a (x ∷ xs) d = elim (Bool-cases (a == x)) [
  | inl hit ↦ rw (hit) d.1
  | inr miss ↦ rw (miss) (ground (arith, has-without a x xs, d.0), without-NoneTwice a xs d.1)
]

gone : (a : ℕ) (xs : List ℕ) → NoneTwice xs → has a (without a xs) ≡ false
gone a [] d = refl
gone a (x ∷ xs) d = ground (arith, gone a xs d.1)

has-append : (b : ℕ) (xs : List ℕ) (a : ℕ) → has b (xs ++ a ∷ []) ≡ (has b xs || b == a)
has-append b [] a = ground arith
has-append b (x ∷ xs) a = ground (arith, has-append b xs a)

append-NoneTwice :
    (a : ℕ) (xs : List ℕ) → has a xs ≡ false → NoneTwice xs → NoneTwice (xs ++ a ∷ [])
append-NoneTwice a [] e d = (refl, tt)
append-NoneTwice a (x ∷ xs) e d =
    (ground (arith, has-append x xs a, e, d.0), append-NoneTwice a xs (ground (arith, e)) d.1)

-- The first free handle, or one that is new, goes to a stream.
take_handle-HasOwners :
    (fresh : ℕ) (free multi : List ℕ)
    → HasOwners free multi
    → has fresh multi ≡ false
    → has fresh free ≡ false
    → HasOwners (take_handle fresh free).1 ((take_handle fresh free).0 ∷ multi)
unfolding take_handle
take_handle-HasOwners fresh [] multi v m f = record {
  free_once = tt;
  used_once = (m, v.used_once);
  apart = λ a e. refl;
}
take_handle-HasOwners fresh (x ∷ free) multi v m f = record {
  free_once = v.free_once.1;
  used_once = (
    elim (Bool-cases (has x multi)) [
      | inl both ↦ cc (v.apart x both, same x free)
      | inr none_such ↦ none_such
    ],
    v.used_once,
  );
  apart = λ a e. ground (arith, e, v.free_once.0, v.apart a);
}
  where
    same : (x : ℕ) (xs : List ℕ) → has x (x ∷ xs) ≡ true
    same x xs = ground arith

release-HasOwners :
    (a : ℕ) (free multi : List ℕ)
    → HasOwners free multi
    → has a multi ≡ true
    → HasOwners (free ++ a ∷ []) (without a multi)
release-HasOwners a free multi v u = record {
  free_once = append-NoneTwice a free (v.apart a u) v.free_once;
  used_once = without-NoneTwice a multi v.used_once;
  apart = λ b e.
      has-append b free a
      ∙ ground (arith, v.apart b (has-without a b multi e), e, gone a multi v.used_once);
}

module _ {Z : Type 0} where
  -- newStream leaves each handle with one owner: none is free twice, in use twice, or both; and so
  -- does releaseHandle, right after it, of any handle that is in use. The conditions are that it is so
  -- before, and that what curl_easy_init gives is new.
  pub handles-HasOwners :
      (have_libtidy : Bool) (fresh : ℕ) (url : Bytes) (tidy use_cache : Bool)
      (h h' : DataStreamHandler Z) (s : Opened)
      → HasOwners h.free_handles h.multi
      → has fresh h.multi ≡ false
      → has fresh h.free_handles ≡ false
      → open_stream have_libtidy fresh url tidy use_cache h ≡ done (h', s)
      → HasOwners h'.free_handles h'.multi
        × ((a : ℕ)
            → has a h'.multi ≡ true
            → HasOwners (release_handle a h').free_handles (release_handle a h').multi)
  unfolding open_stream release_handle
  handles-HasOwners have_libtidy fresh url tidy use_cache h h' s v m f e =
      let w = opened (starts_with (codes "http") url) e in
      (w, λ a u. release-HasOwners a h'.free_handles h'.multi w u)
    where
      step : Bool → Outcome (DataStreamHandler Z × Opened)
      step b =
          if b
          then (let (a, free) = take_handle fresh h.free_handles in
              cached_for url use_cache h >>= λ c. done (
                record h { free_handles = free; multi = a ∷ h.multi },
                tidied url (have_libtidy && tidy) (http_stream url a c use_cache),
              ))
          else (cached_for url use_cache h >>= λ c.
              done (h, tidied url (have_libtidy && tidy) (file_stream url c use_cache)))

      opened : (b : Bool) → step b ≡ done (h', s) → HasOwners h'.free_handles h'.multi
      opened true q =
          let (c, _, r) = bind-eq-done (cached_for url use_cache h) _ q in
          let g : record h {
            free_handles = (take_handle fresh h.free_handles).1;
            multi = (take_handle fresh h.free_handles).0 ∷ h.multi;
          }
              ≡ h' =
            cc in
          subst (λ (x : DataStreamHandler Z). HasOwners x.free_handles x.multi) g
            (take_handle-HasOwners fresh h.free_handles h.multi v m f)
      opened false q =
          let (c, _, r) = bind-eq-done (cached_for url use_cache h) _ q in
          let g : h ≡ h' = cc in
          subst (λ (x : DataStreamHandler Z). HasOwners x.free_handles x.multi) g v
