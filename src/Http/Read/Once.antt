-- ===== src/Http/Read/Once.antt =====
-- One read of a stream against what curl hands over (readBytes of src/HttpStream.cpp).
use libkolibre_xmlreader.Base.{
  ℕ, zero, suc, ◌+◌, ◌*◌, ◌^◌, ◌≤◌, ◌<◌, ◌≡◌, refl, sym, ap, ◌∙◌, ◌⊎◌, inl, inr, Bool, true, ◌==◌,
  Option, none, List, [], ◌∷◌, ◌++◌, if◌then◌else◌, Bytes, length, take-all, arith, append_assoc,
  length-append,
}
use libkolibre_xmlreader.Base.Outcome.{Outcome, done, ◌>>=◌}
use libkolibre_xmlreader.Http.Error.{XmlError, is_no_error}
use libkolibre_xmlreader.Http.Read.{
  Perform, Env, returned, failed, round, turn, read_loop, finish_read, conclude, from_cache,
  stream_read,
}
use libkolibre_xmlreader.Http.Read.Input.{http_input, given}
use libkolibre_xmlreader.Http.Header.Frame.{Marks, lined, marks_of}
use libkolibre_xmlreader.Http.Read.Bodies.{IsPlainRead, Keeps-IsPlainRead}
use libkolibre_xmlreader.Http.Read.Loop.{Reads, read_loop-Reads, joins}
use libkolibre_xmlreader.Http.Stream.{HttpStream}
use libkolibre_xmlreader.Http.Transfer.Holding.{Holds}
use libkolibre_xmlreader.Http.Transfer.Fifo.{serve_buffered-Delivers}
use libkolibre_xmlreader.Stream.{got}
use libkolibre_xmlreader.Http.Read.Condition.{begun, no_held, room_for, condition_holds}
use libkolibre_xmlreader.Http.Read.Script.{Transfers, IsClear, StartsLong}

module _ {Z : Type 0} (env : Env Z) (n : ℕ) (alloc_ok : (m : ℕ) → env.zlib.alloc m ≡ true)
    (pos : 0 < n) (small : 2 * n < 2 ^ 64) where
  -- What is held is served first.
  first_loop :
      (fuel : ℕ) (script : List Perform) (out : Bytes) (s : HttpStream Z) (held : Bytes)
      → (q : Transfers n script out) → length script < fuel
      → Holds s held
      → IsPlainRead s
      → length held ≤ 2 * n
      → (t : HttpStream Z) × (rest : Bytes) × (script' : List Perform) × (read_loop env
            (suc fuel)
            script
            true
            n
            (begun n s)
          ≡ done (t, script', none))
        × (r : Reads n (begun n s) held out t rest (length script) script') × (held ≡ []
            → StartsLong q
            → IsClear r.delivered)
  unfolding read_loop
  first_loop fuel script out s [] over_script enough v plain h =
      let (t, rest, script', loops, r, clear) =
        read_loop-Reads env n alloc_ok (suc fuel) script out over_script (omega arith) true
          (begun n s) [] (record { block = v.block; size = v.size; head = v.head }) (inl refl)
          (record {
            not_stored = plain.not_stored;
            not_cached = plain.not_cached;
            no_error = plain.no_error;
          })
          (omega arith) in
      (t, rest, script', loops, r, λ _. clear)
  first_loop fuel script out s (y ∷ ys) over_script enough v plain h =
      let loop : List Perform
          → Bool
          → HttpStream Z
          → Outcome (HttpStream Z × List Perform × Option XmlError) =
        λ script b s. read_loop env fuel script b n s in
      let (t, rest, served, d) =
        serve_buffered-Delivers env.zlib (begun n s) alloc_ok
          (record { block = v.block; size = v.size; head = v.head }) pos h
          (omega (arith, h, small)) in
      let (u, rest', script', loops, r, clear) =
        read_loop-Reads env n alloc_ok fuel script out over_script enough true t rest d.holds
          d.in_order
          (Keeps-IsPlainRead d.keeps (record {
            not_stored = plain.not_stored;
            not_cached = plain.not_cached;
            no_error = plain.no_error;
          }))
          (omega (arith, d.counted, d.grows, h)) in
      (
        u,
        rest',
        script',
        ap (λ x. turn env loop fuel n x script (begun n s))
              (condition_holds n 0 s.stream_from_cache pos plain.not_cached)
            ∙ ap (λ x. round env loop fuel n x script (begun n s))
                (room_for s.buffer_size n (omega (arith, v.size)) pos)
            ∙ ap (λ x. x >>= loop script true) served
            ∙ loops,
        joins env n alloc_ok (omega arith) d r,
        λ e. absurd (cc),
      )

  -- What a read gives, and what it leaves for the next one.
  pub record OneRead (s : HttpStream Z) (held out : Bytes) (calls : ℕ) (piece : Bytes)
      (t : HttpStream Z) (rest left : Bytes) (script : List Perform) : Type 0 where
    pub holds : Holds t rest
    pub plain : IsPlainRead t
    pub bounded : length rest ≤ 2 * n
    pub transfers : Transfers n script left
    pub within : length script ≤ calls
    pub fits : length piece ≤ n
    pub sequence : piece ++ (rest ++ left) ≡ held ++ out
    pub counted : t.total_bytes_read ≡ s.total_bytes_read + length piece
    pub progress : piece ≡ [] → (rest ≡ []) × (script ≡ [])

  -- Nothing comes from the cache.
  not_from_cache : (fuel : ℕ) (t : HttpStream Z) → IsPlainRead t → from_cache env fuel t ≡ done t
  unfolding from_cache
  not_from_cache fuel t plain = ground (arith, plain.not_cached)

  pub concluded : HttpStream Z → HttpStream Z
  concluded t = record t {
    bytes_to_read = 0;
    transfer_finished =
        if t.content_length_response == t.total_bytes_read then true else t.transfer_finished;
  }

  conclude-IsPlainRead :
      (t : HttpStream Z) → IsPlainRead t → conclude env t ≡ (concluded t, returned t.bytes_read)
  unfolding conclude concluded
  conclude-IsPlainRead t plain =
      ap (λ e. (concluded t, if is_no_error e then returned t.bytes_read else failed))
        plain.no_error

  at_end :
      (script : List Perform) (room read : ℕ)
      → (script ≡ []) ⊎ ((room ≡ 0) ⊎ (0 < read))
      → read + room ≡ n
      → read ≡ 0
      → script ≡ []
  at_end script room read (inl e) h k = e
  at_end script room read (inr (inl e)) h k = absurd (omega (arith, pos))
  at_end script room read (inr (inr e)) h k = absurd (omega arith)

  IsClear-piece :
      (piece rest delivered held : Bytes) (room : ℕ)
      → length piece + length rest ≡ length held + length delivered
      → held ≡ []
      → (rest ≡ []) ⊎ (room ≡ 0)
      → length piece + room ≡ n
      → 3 < n
      → IsClear delivered
      → IsClear piece
  IsClear-piece piece rest delivered held room e h o k large (inl d) =
      inl (omega (arith, ap length h))
  IsClear-piece piece rest delivered held room e h (inl o) k large (inr d) =
      inr (omega (arith, ap length h, ap length o))
  IsClear-piece piece rest delivered held room e h (inr o) k large (inr d) = inr (omega arith)

  -- A read whose loop gave this, once the header lines were taken.
  pub read_from :
      (fuel calls : ℕ) (script : List Perform) (out : Bytes) (s : HttpStream Z) (held : Bytes)
      (m : Marks) (t : HttpStream Z) (rest : Bytes) (script' : List Perform) (starts : Type 0)
      → read_loop env fuel script true n (begun n s) ≡ done (t, script', none)
      → (r : Reads n (lined (begun n s) m) held out t rest calls script')
      → IsPlainRead (lined (begun n s) m)
      → (starts → (3 < n) × (held ≡ []) × IsClear r.delivered)
      → (let i = http_input env fuel in
          i.read_bytes n (s, script) ≡ done ((concluded t, script'), got t.filled))
        × OneRead s held out calls t.filled (concluded t) rest r.left script'
        × (starts → IsClear t.filled)
  unfolding stream_read conclude concluded
  read_from fuel calls script out s held m t rest script' starts loops r plain clear =
      let plain' = Keeps-IsPlainRead r.delivers.keeps plain in
      (
        ap (λ m. m >>= λ x. done (given x))
              (ap (λ m. m >>= finish_read env fuel) loops
                ∙ ap (λ m. m >>= λ s'. done ((conclude env s').0, script', (conclude env s').1))
                    (not_from_cache fuel t plain')
                ∙ ap (λ x. done (x.0, script', x.1)) (conclude-IsPlainRead t plain'))
            ∙ ap (λ x. done ((concluded t, script'), got x))
                (take-all t.bytes_read t.filled (omega (arith, r.delivers.written))),
        record {
          holds = record {
            block = r.delivers.holds.block;
            size = r.delivers.holds.size;
            head = r.delivers.holds.head;
          };
          plain = record {
            not_stored = plain'.not_stored;
            not_cached = plain'.not_cached;
            no_error = plain'.no_error;
          };
          bounded = r.bounded;
          transfers = r.transfers;
          within = r.within;
          fits = omega (arith, r.delivers.written, r.delivers.room);
          sequence =
              sym (append_assoc t.filled rest r.left)
              ∙ ap (λ x. x ++ r.left) r.delivers.sequence
              ∙ append_assoc held r.delivered r.left
              ∙ ap (◌++◌ held) (sym r.splits);
          counted = omega (
            arith,
            r.delivers.counted,
            ap length r.delivers.sequence,
            length-append t.filled rest,
            length-append held r.delivered,
          );
          progress = λ e. (
            no_held rest t.bytes_to_read r.delivers.in_order
                (omega (arith, r.delivers.written, r.delivers.room, ap length e, pos)),
            at_end script' t.bytes_to_read t.bytes_read r.stops (omega (arith, r.delivers.room))
                (omega (arith, r.delivers.written, ap length e)),
          );
        },
        λ q.
            let (large, e, delivered) = clear q in
            IsClear-piece t.filled rest r.delivered held t.bytes_to_read
              (omega (
                arith,
                ap length r.delivers.sequence,
                length-append t.filled rest,
                length-append held r.delivered,
              ))
              e r.delivers.in_order (omega (arith, r.delivers.written, r.delivers.room)) large
              delivered,
      )

  pub one_read :
      (fuel : ℕ) (script : List Perform) (out : Bytes) (s : HttpStream Z) (held : Bytes)
      → (q : Transfers n script out) → length script + 1 < fuel
      → Holds s held
      → IsPlainRead s
      → length held ≤ 2 * n
      → (t : HttpStream Z) × (script' : List Perform) × (piece rest left : Bytes) × (let i =
            http_input env fuel in
          i.read_bytes n (s, script) ≡ done ((t, script'), got piece))
        × OneRead s held out (length script) piece t rest left script'
        × ((3 < n) × (held ≡ []) × StartsLong q → IsClear piece)
  one_read zero script out s held over_script enough v plain h = absurd (omega arith)
  one_read (suc fuel) script out s held over_script enough v plain h =
      let (t, rest, script', loops, r, clear) =
        first_loop fuel script out s held over_script (omega arith) v plain h in
      let (e, one, long) =
        read_from (suc fuel) (length script) script out s held (marks_of (begun n s)) t rest script'
          ((3 < n) × (held ≡ []) × StartsLong over_script) loops r
          (record {
            not_stored = plain.not_stored;
            not_cached = plain.not_cached;
            no_error = plain.no_error;
          })
          (λ (large, e, q). (large, e, clear e q)) in
      (concluded t, script', t.filled, rest, r.left, e, one, long)
