-- ===== src/Http/Header/Values.antt =====
-- Which bytes of a header line src/HttpStream.cpp takes for the value.
use libkolibre_xmlreader.Base.{
  ℕ, suc, ◌+◌, ◌-◌, ◌%◌, ◌^◌, ◌≤◌, ◌<◌, ◌≡◌, refl, Bool, true, false, some, [], ◌∷◌, ◌++◌, leb,
  Bytes, codes, starts_with, length, drop, arith, take-append, length-append, drop-append, le→leb,
  lt→leb,
}
use libkolibre_xmlreader.Base.Outcome.{done, fault}
use libkolibre_xmlreader.Cache.Object.{sub64}
use libkolibre_xmlreader.Http.Header.{ends_differ, quote_differs, copy_value, etag_span, value_span}

drop-last : (front : Bytes) (c : ℕ) → drop (length (front ++ c ∷ []) - 1) (front ++ c ∷ []) ≡ c ∷ []
drop-last front c =
    let e : length (front ++ c ∷ []) - 1 ≡ length front =
      omega (arith, length-append front (c ∷ [])) in
    rw e (drop-append front (c ∷ []))

-- The test for `\r\n` begins at the last byte, which is the newline: it fails on every line.
pub ends_differ-newline : (front : Bytes) (past : ℕ) → ends_differ (front ++ b'\n' ∷ []) past ≡ true
unfolding ends_differ
ends_differ-newline front past = rw (drop-last front b'\n', ends_differ) refl

pub quote_differs-newline :
    (front : Bytes) (past : ℕ) → quote_differs (front ++ b'\n' ∷ []) past ≡ true
unfolding quote_differs
quote_differs-newline front past = rw (drop-last front b'\n', quote_differs) refl

pub copy_value-take :
    (alloc : ℕ → Bool) (n : ℕ) (front rest : Bytes)
    → ((k : ℕ) → alloc k ≡ true)
    → n ≡ length front
    → copy_value alloc n (front ++ rest) ≡ done (some front)
unfolding copy_value
copy_value-take alloc n front rest ok e =
    let le : leb (length front) (length (front ++ rest)) ≡ true =
      le→leb _ _ (omega (arith, length-append front rest)) in
    rw e (rw (ok ((length front + 1) % 2 ^ 64), le, take-append front rest) refl)

pub copy_value-fault :
    (alloc : ℕ → Bool) (n : ℕ) (rest : Bytes)
    → ((k : ℕ) → alloc k ≡ true)
    → length rest < n
    → copy_value alloc n rest ≡ fault
unfolding copy_value
copy_value-fault alloc n rest ok h = rw (ok ((n + 1) % 2 ^ 64), lt→leb _ _ h) refl

sub64-add : (n k : ℕ) → n < 2 ^ 64 → k < 2 ^ 64 → sub64 (n + k) k ≡ n
sub64-add n k h h' = omega arith

-- All but the last two bytes of the value are copied.
pub value_span-newline :
    (line front value : Bytes) (past : ℕ)
    → line ≡ front ++ b'\n' ∷ []
    → 2 ≤ length value
    → length value < 2 ^ 64
    → value_span line past value ≡ length value - 2
unfolding value_span
value_span-newline line front value past e h w =
    rw e (rw (ends_differ-newline front past, value_span) (omega arith))

pub etag_span-quoted :
    (line front value : Bytes) (past : ℕ)
    → line ≡ front ++ b'\n' ∷ []
    → etag_span line past (b'"' ∷ value) ≡ (sub64 (sub64 (suc (length value)) 3) 1, value)
unfolding etag_span
etag_span-quoted line front value past e =
    rw e (rw (quote_differs-newline front past, etag_span) refl)

pub etag_span-unquoted :
    (line front value : Bytes) (past : ℕ)
    → line ≡ front ++ b'\n' ∷ []
    → starts_with (codes "\"") value ≡ false
    → etag_span line past value ≡ (sub64 (length value) 3, value)
unfolding etag_span
etag_span-unquoted line front value past e h =
    rw e (rw (quote_differs-newline front past, etag_span) (rw (h, etag_span) refl))
