-- ===== src/Http/Read/Download.antt =====
-- A download over HTTP: the reads of a stream (readBytes of src/HttpStream.cpp) against what curl hands
-- over.
use libkolibre_xmlreader.Base.{
  joined, ℕ, zero, suc, ◌-◌, map, ◌&&◌, ◌+◌, ◌*◌, ◌^◌, ◌≤◌, ◌<◌, ◌≡◌, refl, sym, ap, ◌∙◌, inl, inr,
  true, false, List, [], ◌∷◌, ◌++◌, Bytes, length, arith, length-append,
}
use libkolibre_xmlreader.Base.Outcome.{done}
use libkolibre_xmlreader.Http.Read.{Perform, Env, read_loop}
use libkolibre_xmlreader.Http.Read.Input.{http_input}
use libkolibre_xmlreader.Http.Read.Bodies.{IsPlainRead}
use libkolibre_xmlreader.Http.Stream.{HttpStream}
use libkolibre_xmlreader.Http.Transfer.Holding.{Holds}
use libkolibre_xmlreader.Stream.{got, Serves, IsLong, ends, serves}
use libkolibre_xmlreader.Http.Read.Script.{Transfers, over, last, more, IsClear, StartsLong}
use libkolibre_xmlreader.Http.Read.Once.{OneRead, one_read, read_from, concluded}
use libkolibre_xmlreader.Http.Read.Opening.{Opening, call_of, Opens, open_all}
use libkolibre_xmlreader.Http.Read.Condition.{begun}
use libkolibre_xmlreader.Http.Read.Loop.{read_loop-Reads}
use libkolibre_xmlreader.Http.Header.Frame.{lined}

Transfers-empty :
    {n : ℕ} {script : List Perform} {out : Bytes} → Transfers n script out → script ≡ [] → out ≡ []
Transfers-empty (over e h) k = h
Transfers-empty (last bodies c e h fits) k = cc
Transfers-empty (more bodies c m rest out' e h fits over_rest) k = cc

module _ {Z : Type 0} (env : Env Z) (n : ℕ) (alloc_ok : (m : ℕ) → env.zlib.alloc m ≡ true)
    (pos : 0 < n) (small : 2 * n < 2 ^ 64) where
  -- What the reads up to the end give.
  abbrev Downloads : ℕ → List Perform → Bytes → HttpStream Z → Bytes → Type 0 → Type 0
  Downloads fuel script out s held starts =
      (t : HttpStream Z) × (pieces : List Bytes) × Serves (http_input env fuel) n (s, script) pieces
        (t, [])
      × (joined pieces ≡ held ++ out)
      × (t.total_bytes_read ≡ s.total_bytes_read + (length held + length out))
      × (starts → IsLong pieces)

  lengths :
      {s t : HttpStream Z} {held out piece rest left : Bytes} {calls : ℕ} {script : List Perform}
      → OneRead env n alloc_ok pos small s held out calls piece t rest left script
      → length piece + (length rest + length left) ≡ length held + length out
  lengths {held = held} {out} {piece} {rest} {left} r = omega (
    arith,
    ap length r.sequence,
    length-append piece (rest ++ left),
    length-append rest left,
    length-append held out,
  )

  -- After a read that gave something there are more.
  read_on :
      (fuel calls : ℕ) (script : List Perform) (out : Bytes) (s : HttpStream Z) (held : Bytes)
      → (t : HttpStream Z) (script' : List Perform) (piece rest left : Bytes)
      → (let i = http_input env fuel in i.read_bytes n (s, script) ≡ done ((t, script'), got piece))
      → OneRead env n alloc_ok pos small s held out calls piece t rest left script'
      → (starts starts' : Type 0) → (starts → IsClear piece)
      → (0 < length piece → Downloads fuel script' left t rest starts')
      → Downloads fuel script out s held starts
  read_on fuel calls script out s held t script' [] rest left e r starts starts' clear next =
      let (a, b) = r.progress refl in
      let c = Transfers-empty r.transfers b in
      let d : [] ≡ rest ++ left = sym (ap (λ x. x ++ left) a ∙ c) in
      (
        t,
        [],
        ends (e ∙ ap (λ x. done ((t, x), got [])) b),
        d ∙ r.sequence,
        omega (arith, r.counted, lengths r, ap length a, ap length c),
        λ _. refl,
      )
  read_on fuel calls script out s held t script' (x ∷ xs) rest left e r starts starts' clear next =
      let (u, pieces, reads, whole, total, _) = next (omega arith) in
      (
        u,
        (x ∷ xs) ∷ pieces,
        serves e r.fits reads,
        ap (λ y. (x ∷ xs) ++ y) whole ∙ r.sequence,
        omega (arith, total, r.counted, lengths r),
        λ q. elim (clear q) [ inl h ↦ absurd (omega (arith, h)) | inr h ↦ h ],
      )

  downloads :
      (m : ℕ) (fuel : ℕ) (script : List Perform) (out : Bytes) (s : HttpStream Z) (held : Bytes)
      → length held + length out < m
      → (q : Transfers n script out) → length script + 1 < fuel
      → Holds s held
      → IsPlainRead s
      → length held ≤ 2 * n
      → Downloads fuel script out s held ((3 < n) × (held ≡ []) × StartsLong q)
  downloads zero fuel script out s held bound over_script enough v plain h = absurd (omega arith)
  downloads (suc m) fuel script out s held bound over_script enough v plain h =
      let (t, script', piece, rest, left, e, r, clear) =
        one_read env n alloc_ok pos small fuel script out s held over_script enough v plain h in
      read_on fuel (length script) script out s held t script' piece rest left e r
        ((3 < n) × (held ≡ []) × StartsLong over_script)
        ((3 < n) × (rest ≡ []) × StartsLong r.transfers) clear
        (λ pos'.
          downloads m fuel script' left t rest (omega (arith, lengths r, pos', bound)) r.transfers
            (omega (arith, r.within, enough)) r.holds r.plain r.bounded)

  -- Reading a stream up to `n` bytes at a time gives, in order and without loss, what it holds back and
  -- then all that curl hands over, and ends; the count of bytes read is right. The conditions are:
  -- curl hands over bodies only, no call more than 2 * n bytes, and reports status 200 with its last
  -- call; the stream neither stores what it reads nor reads from the cache, and has no error; it holds
  -- back at most 2 * n bytes, which fit in 64 bits; memory is not refused; the fuel is above the number
  -- of calls.
  pub http_input-Serves :
      (fuel : ℕ) (script : List Perform) (out : Bytes) (s : HttpStream Z) (held : Bytes)
      → Transfers n script out
      → length script + 1 < fuel
      → Holds s held
      → IsPlainRead s
      → length held ≤ 2 * n
      → (t : HttpStream Z) × (pieces : List Bytes) × Serves
          (http_input env fuel)
          n
          (s, script)
          pieces
          (t, [])
        × (joined pieces ≡ held ++ out)
        × (t.total_bytes_read ≡ s.total_bytes_read + (length held + length out))
  http_input-Serves fuel script out s held over_script enough v plain h =
      let (t, pieces, reads, whole, total, _) =
        downloads (suc (length held + length out)) fuel script out s held (omega arith) over_script
          enough v plain h in
      (t, pieces, reads, whole, total)

  -- The same for a stream that holds nothing back and makes no use of the cache, where the first calls
  -- bring header lines, and the first call that brings bytes brings more than three: then the first
  -- piece has more than three.
  pub http_input-IsLong :
      (fuel : ℕ) (openings : List Opening) (script : List Perform) (out : Bytes)
      (s u : HttpStream Z)
      → Opens env openings (begun n s) u
      → (q : Transfers n script out) → length openings + length script + 1 < fuel
      → Holds s []
      → s.use_cache ≡ false
      → IsPlainRead s
      → 3 < n
      → StartsLong q
      → (t : HttpStream Z) × (pieces : List Bytes) × Serves
          (http_input env fuel)
          n
          (s, map call_of openings ++ script)
          pieces
          (t, [])
        × (joined pieces ≡ out)
        × (t.total_bytes_read ≡ s.total_bytes_read + length out)
        × IsLong pieces
  http_input-IsLong fuel openings script out s u opens q enough v off plain large starts =
      let f = fuel - length openings in
      let full = map call_of openings ++ script in
      let (c, m, _, opened) =
        open_all env n f openings script true (begun n s) u pos refl plain.not_cached v.size
          opens in
      let plain' : IsPlainRead (lined (begun n s) m) = record {
        not_stored = ap (λ b. b && m.store_cache) off;
        not_cached = plain.not_cached;
        no_error = plain.no_error;
      } in
      let (t, rest, script', loops, r, clear) =
        read_loop-Reads env n alloc_ok f script out q (omega (arith, enough)) c
          (lined (begun n s) m) [] (record { block = v.block; size = v.size; head = v.head })
          (inl refl) plain' (omega arith) in
      let (e, one, long) =
        read_from env n alloc_ok pos small fuel (length script) full out s [] m t rest script'
          (StartsLong q)
          (ap (λ k. read_loop env k full true n (begun n s)) (omega (arith, enough))
            ∙ opened
            ∙ loops)
          r plain' (λ q'. (large, refl, clear q')) in
      let (t', pieces, reads, whole, total, is_long) =
        read_on fuel (length script) full out s [] (concluded env n alloc_ok pos small t) script'
          t.filled rest r.left e one (StartsLong q)
          ((3 < n) × (rest ≡ []) × StartsLong one.transfers) long
          (λ pos'.
            downloads (suc (length out)) fuel script' r.left (concluded env n alloc_ok pos small t)
              rest (omega (arith, lengths one, pos')) one.transfers
              (omega (arith, one.within, enough)) one.holds one.plain one.bounded) in
      (t', pieces, reads, whole, omega (arith, total), is_long starts)
