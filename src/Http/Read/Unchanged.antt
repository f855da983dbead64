-- ===== src/Http/Read/Unchanged.antt =====
-- A stream whose request is answered by 304: from the answer on it reads from its document (readBytes of
-- src/HttpStream.cpp).
use libkolibre_xmlreader.Base.{
  joined, ℕ, zero, suc, ◌+◌, ◌<◌, ◌≡◌, refl, ap, ◌∙◌, Bool, true, false, ltb, ◌==◌, none, some,
  List, [], ◌∷◌, if◌then◌else◌, Bytes, length, arith,
}
use libkolibre_xmlreader.Base.Outcome.{done, ◌>>=◌}
use libkolibre_xmlreader.Cache.Object.{CacheObject, reset_state}
use libkolibre_xmlreader.Cache.Object.Inflate.{inflater}
use libkolibre_xmlreader.Cache.Object.Unpack.{Reading-full, ReadsAll, ends as no_more, reads}
use libkolibre_xmlreader.Cache.Object.Pack.{IsPacked}
use libkolibre_xmlreader.Cache.Object.RoundTrip.{IsLossless}
use libkolibre_xmlreader.Http.Error.{no_error, curle_ok}
use libkolibre_xmlreader.Http.Read.{
  Perform, Env, completed, round, turn, perform, run_callbacks, handle_messages, after_flow,
  read_loop, conclude,
}
use libkolibre_xmlreader.Http.Read.Input.{http_input}
use libkolibre_xmlreader.Http.Read.Heads.{heads, Takes, Takes-lined}
use libkolibre_xmlreader.Http.Header.Frame.{Marks, lined}
use libkolibre_xmlreader.Cache.Zlib.{Zlib}
use libkolibre_xmlreader.Http.Response.{handle_result}
use libkolibre_xmlreader.Http.Stream.{HttpStream, Easy, new_stream}
use libkolibre_xmlreader.Http.Transfer.{at_most}
use libkolibre_xmlreader.Stream.{Serves, ends, serves}
use libkolibre_xmlreader.Http.Read.Cached.{behind, cached_read, Serves-ReadsCache, nonempty}
use libkolibre_xmlreader.Http.Read.Condition.{begun, no_room, condition_holds, skipped}

module _ {Z : Type 0} (env : Env Z) where
  -- The answer 304, with its header lines.
  abbrev pub unchanged : List (Bytes × ℕ) → Bool → ℕ → Perform
  unchanged lines b m = record {
    callbacks = heads lines;
    call_again = b;
    running = m;
    messages = completed curle_ok 304 ∷ [];
  }

  same : {A : Type 0} (b : Bool) (x y : A) → y ≡ x → (if b then x else y) ≡ x
  same true x y e = refl
  same false x y e = e

  -- The loop ends with the answer.
  answered :
      (fuel n : ℕ) (lines : List (Bytes × ℕ)) (b : Bool) (k : ℕ) (rest : List Perform)
      (s : HttpStream Z) (m : Marks)
      → 0 < n
      → s.stream_from_cache ≡ false
      → s.buffer_size ≡ 0
      → run_callbacks env (suc fuel) (heads lines) (begun n s) ≡ done (lined (begun n s) m)
      → read_loop env (suc (suc fuel)) (unchanged lines b k ∷ rest) true n (begun n s)
        ≡ done (record (lined (begun n s) m) { stream_from_cache = true }, rest, none)
  unfolding read_loop perform handle_result
  answered fuel n lines b k rest s m pos fresh held runs =
      let s' : HttpStream Z = record (lined (begun n s) m) { stream_from_cache = true } in
      ap
        (λ x.
          turn env (λ script b s. read_loop env (suc fuel) script b n s) (suc fuel) n x
            (unchanged lines b k ∷ rest) (begun n s))
        (condition_holds n 0 s.stream_from_cache pos fresh)
      ∙ ap
          (λ x.
            round env (λ script b s. read_loop env (suc fuel) script b n s) (suc fuel) n
              (ltb 0 (at_most x n)) (unchanged lines b k ∷ rest) (begun n s))
          held
      ∙ ap
          (λ x.
            round env (λ script b s. read_loop env (suc fuel) script b n s) (suc fuel) n x
              (unchanged lines b k ∷ rest) (begun n s))
          (no_room n)
      ∙ ap
          (λ x.
            (x >>= handle_messages env (completed curle_ok 304 ∷ []) b k n)
            >>= after_flow env (λ script b s. read_loop env (suc fuel) script b n s) rest)
          runs
      ∙ same (k == 0) (done (s', rest, none)) (read_loop env (suc fuel) rest false n s') (
          ap (λ x. turn env (λ script b s. read_loop env fuel script b n s) fuel n x rest s')
            (skipped n 0 false true refl))

  -- A stream that is answered by 304 serves what is left in its document.
  Serves-unchanged :
      (fuel n : ℕ) (lines : List (Bytes × ℕ)) (b : Bool) (k : ℕ) (rest : List Perform)
      (s : HttpStream Z) (m : Marks) (pieces : List Bytes) (u : CacheObject Z)
      → 0 < n
      → s.use_cache ≡ true
      → s.stream_from_cache ≡ false
      → s.error_code ≡ no_error
      → s.buffer_size ≡ 0
      → run_callbacks env (suc fuel) (heads lines) (begun n s) ≡ done (lined (begun n s) m)
      → (let t = lined s m in ReadsAll env.zlib (suc (suc fuel)) n t.cache pieces u)
      → (t : HttpStream Z) × Serves
          (http_input env (suc (suc fuel)))
          n
          (s, unchanged lines b k ∷ rest)
          pieces
          (t, rest)
  unfolding conclude
  Serves-unchanged fuel n lines b k rest s m [] u pos used fresh fine held runs'
        (no_more {t = c} runs) =
      (
        _,
        ends (
            cached_read env (suc (suc fuel)) n (unchanged lines b k ∷ rest) rest s
              (record (lined (begun n s) m) { stream_from_cache = true }) c []
              (answered fuel n lines b k rest s m pos fresh held runs')
              (record { in_use = used; cached = refl; no_error = fine }) refl refl runs),
      )
  Serves-unchanged fuel n lines b k rest s m (piece ∷ pieces) u pos used fresh fine held runs'
        (reads {t = c} {x = x} {xs = xs} runs fits rows) =
      let s' : HttpStream Z = record (lined (begun n s) m) { stream_from_cache = true } in
      let (t, served) =
        Serves-ReadsCache env (suc fuel) n rest (behind env s' c (x ∷ xs)) c pieces u
          (record { in_use = used; cached = refl; no_error = fine })
          (ap (λ b. if b then reset_state env.zlib c else c) (nonempty (length xs))) rows in
      (
        t,
        serves
            (cached_read env (suc (suc fuel)) n (unchanged lines b k ∷ rest) rest s s' c (x ∷ xs)
              (answered fuel n lines b k rest s m pos fresh held runs')
              (record { in_use = used; cached = refl; no_error = fine }) refl refl runs)
            fits served,
      )

-- The header lines leave what was written.
lined-IsPacked :
    {Z : Type 0} (z : Zlib Z) (fuel : ℕ) (s : HttpStream Z) (m : Marks) (packed : Bytes)
    → IsPacked z fuel s.cache packed
    → (let t = lined s m in IsPacked z fuel t.cache packed)
lined-IsPacked z fuel s m packed v = record {
  state = v.state;
  block = v.block;
  size = v.size;
  small = v.small;
}

-- A stream that is made for a document that was written whole, and is answered by 304, serves it.
pub Serves-IsPacked :
    {Z : Type 0} (env : Env Z) (Left : Z → Bytes → Bytes → Type 0) (fuel n : ℕ)
    (text packed : Bytes) (c : CacheObject Z) (url : Bytes) (easy : Easy) (lines : List (Bytes × ℕ))
    (b : Bool) (k : ℕ) (rest : List Perform)
    → IsLossless env.zlib Left
    → 0 < n
    → IsPacked env.zlib fuel c packed
    → Takes env lines (begun n (new_stream env.zlib url easy (some c)))
    → Left (inflater env.zlib c.stream) packed text
    → length packed + 1 < fuel
    → (t : HttpStream Z) × (pieces : List Bytes) × Serves
        (http_input env fuel)
        n
        (new_stream env.zlib url easy (some c), unchanged env lines b k ∷ rest)
        pieces
        (t, rest)
      × (joined pieces ≡ text)
unfolding new_stream
Serves-IsPacked env Left zero n text packed c url easy lines b k rest law pos v takes left enough =
    absurd (omega arith)
Serves-IsPacked env Left (suc zero) n text packed c url easy lines b k rest law pos v takes left
      enough =
    absurd (omega arith)
Serves-IsPacked env Left (suc (suc fuel)) n text packed c url easy lines b k rest law pos v takes
      left enough =
    let s = new_stream env.zlib url easy (some c) in
    let (m, runs) = Takes-lined env lines (begun n s) takes in
    let t = lined s m in
    let w = lined-IsPacked env.zlib (suc (suc fuel)) s m packed v in
    let (u, pieces, rows, whole) =
      Reading-full env.zlib Left n pos (law.inflated n pos) (suc (suc fuel)) t.cache packed text
        w.state w.block w.size w.small (omega arith) left in
    let (t', served) =
      Serves-unchanged env fuel n lines b k rest s m pieces u pos refl refl refl refl
        (runs (suc fuel)) rows in
    (t', pieces, served, whole)
