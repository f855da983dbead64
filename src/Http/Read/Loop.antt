-- ===== src/Http/Read/Loop.antt =====
-- The loop of readBytes (src/HttpStream.cpp) against a script of what curl hands over.
use libkolibre_xmlreader.Base.{
  joined, ℕ, zero, suc, ◌*◌, ◌≤◌, ◌<◌, ◌≡◌, refl, sym, subst, ap, ◌∙◌, ◌⊎◌, inl, inr, Bool, true,
  false, ltb, none, List, [], ◌∷◌, ◌++◌, if◌then◌else◌, Bytes, length, arith, append-nil,
  length-append, append_assoc, Bool-cases,
}
use libkolibre_xmlreader.Base.Outcome.{done, ◌>>=◌}
use libkolibre_xmlreader.Http.Error.{curle_ok}
use libkolibre_xmlreader.Http.Read.{
  completed, Perform, Env, wants_more, round, turn, after_flow, read_loop,
}
use libkolibre_xmlreader.Http.Read.Bodies.{
  Delivers-refl, Delivers-trans, IsPlainRead, Keeps-IsPlainRead,
}
use libkolibre_xmlreader.Http.Stream.{HttpStream}
use libkolibre_xmlreader.Http.Transfer.{at_most}
use libkolibre_xmlreader.Http.Transfer.Holding.{Holds}
use libkolibre_xmlreader.Http.Transfer.Fifo.{Delivers, InOrder}
use libkolibre_xmlreader.Http.Read.Condition.{stop_cases, go_cases, still_running, no_room, no_held}
use libkolibre_xmlreader.Http.Read.Script.{
  part, Transfers, over, last, more, IsClear, StartsLong, perform-more, perform-last,
}

-- A part of a read: what it took of the script, and what is left.
pub record Reads {Z : Type 0} (n : ℕ) (s : HttpStream Z) (held out : Bytes) (t : HttpStream Z)
    (rest : Bytes) (calls : ℕ) (script : List Perform) : Type 0 where
  pub delivered : Bytes
  pub left : Bytes
  pub delivers : Delivers s held delivered t rest
  pub splits : out ≡ delivered ++ left
  pub transfers : Transfers n script left
  pub bounded : length rest ≤ 2 * n
  pub within : length script ≤ calls
  pub stops : (script ≡ []) ⊎ ((t.bytes_to_read ≡ 0) ⊎ (0 < t.bytes_read))

module _ {Z : Type 0} (env : Env Z) (n : ℕ) (alloc_ok : (m : ℕ) → env.zlib.alloc m ≡ true) where
  -- The loop comes to an end with the rest of the script.
  abbrev pub LoopReads : ℕ → List Perform → Bytes → Type 0 → Type 0
  LoopReads fuel script out starts =
      (b : Bool) (s : HttpStream Z) (held : Bytes)
      → Holds s held
      → InOrder s held
      → IsPlainRead s
      → length held ≤ 2 * n
      → (t : HttpStream Z) × (rest : Bytes) × (script' : List Perform) × (read_loop env fuel script
            b n s
          ≡ done (t, script', none))
        × (r : Reads n s held out t rest (length script) script') × (starts → IsClear r.delivered)

  -- The loop is left at once, where its condition does not hold.
  not_wanted :
      (fuel : ℕ) (script : List Perform) (out : Bytes) (b : Bool) (s : HttpStream Z) (held : Bytes)
      (starts : Type 0)
      → Holds s held
      → InOrder s held
      → IsPlainRead s
      → length held ≤ 2 * n
      → Transfers n script out
      → wants_more env b s ≡ false
      → (t : HttpStream Z) × (rest : Bytes) × (script' : List Perform) × (read_loop env
            (suc fuel)
            script
            b
            n
            s
          ≡ done (t, script', none))
        × (r : Reads n s held out t rest (length script) script') × (starts → IsClear r.delivered)
  unfolding read_loop
  not_wanted fuel script out b s held starts v o plain h over_script w = (
    s,
    held,
    script,
    ap (λ x. turn env (λ script b s. read_loop env fuel script b n s) fuel n x script s) w,
    record {
      delivered = [];
      left = out;
      delivers = Delivers-refl s held v o;
      splits = refl;
      transfers = over_script;
      bounded = h;
      within = omega arith;
      stops =
          inr (stop_cases s.bytes_to_read s.bytes_read b s.stream_from_cache plain.not_cached w);
    },
    λ _. inl refl,
  )

  -- It calls curl, where it holds.
  pub wanted :
      (fuel : ℕ) (script : List Perform) (b : Bool) (s : HttpStream Z) (held : Bytes)
      → Holds s held
      → InOrder s held
      → wants_more env b s ≡ true
      → (held ≡ [])
        × (read_loop env (suc fuel) script b n s
            ≡ round env (λ script b s. read_loop env fuel script b n s) fuel n false script s)
  unfolding read_loop
  wanted fuel script b s held v o w =
      let room = go_cases s.bytes_to_read s.bytes_read b s.stream_from_cache w in
      let e = no_held held s.bytes_to_read o room in
      let none_held : s.buffer_size ≡ 0 = v.size ∙ ap length e in
      (
        e,
        ap (λ x. turn env (λ script b s. read_loop env fuel script b n s) fuel n x script s) w
            ∙ ap
                (λ x.
                  round env (λ script b s. read_loop env fuel script b n s) fuel n
                    (ltb 0 (at_most x s.bytes_to_read)) script s)
                none_held
            ∙ ap (λ x. round env (λ script b s. read_loop env fuel script b n s) fuel n x script s)
                (no_room s.bytes_to_read),
      )

  -- Behind a call of curl: what was handed over, and what the loop does from there.
  pub joins :
      {s t u : HttpStream Z} {held mid rest a out : Bytes} {calls calls' : ℕ}
      {script : List Perform}
      → calls ≤ calls'
      → Delivers s held a t mid
      → Reads n t mid out u rest calls script
      → Reads n s held (a ++ out) u rest calls' script
  joins {a = a} h d r = record {
    delivered = a ++ r.delivered;
    left = r.left;
    delivers = Delivers-trans d r.delivers;
    splits = ap (◌++◌ a) r.splits ∙ sym (append_assoc a r.delivered r.left);
    transfers = r.transfers;
    bounded = r.bounded;
    within = omega (arith, r.within, h);
    stops = r.stops;
  }

  IsClear-append :
      (a b : Bytes) (starts : Type 0)
      → (starts → IsClear b)
      → (3 < length a) ⊎ ((length a ≡ 0) × starts)
      → IsClear (a ++ b)
  IsClear-append a b starts clear (inl long) = inr (omega (arith, length-append a b, long))
  IsClear-append a b starts clear (inr (e, q)) = elim (clear q) [
    | inl h ↦ inl (omega (arith, length-append a b, e, h))
    | inr h ↦ inr (omega (arith, length-append a b, e, h))
  ]

  read_loop-more :
      (fuel : ℕ) (bodies : List Bytes) (c : Bool) (m : ℕ) (script : List Perform) (out : Bytes)
      → length (joined bodies) ≤ 2 * n
      → Transfers n script out
      → {starts : Type 0} → LoopReads fuel script out starts
      → LoopReads
          (suc fuel)
          (part bodies c (suc m) [] ∷ script)
          (joined bodies ++ out)
          ((3 < length (joined bodies)) ⊎ ((length (joined bodies) ≡ 0) × starts))
  unfolding read_loop joins
  read_loop-more fuel bodies c m script out fits over_script {starts} rec b s held v o plain h =
      elim (Bool-cases (wants_more env b s)) [
        | inr w ↦
            not_wanted fuel (part bodies c (suc m) [] ∷ script) (joined bodies ++ out) b s held
              ((3 < length (joined bodies)) ⊎ ((length (joined bodies) ≡ 0) × starts)) v o plain h
              (more bodies c m script out refl refl fits over_script) w
        | inl w ↦
            let (e, turns) = wanted fuel (part bodies c (suc m) [] ∷ script) b s held v o w in
            let (t, mid, calls, d) =
              perform-more env fuel n alloc_ok bodies c (suc m) s held v o plain in
            let (u, rest, script', loops, r, clear) =
              rec c t mid d.holds d.in_order (Keeps-IsPlainRead d.keeps plain)
                (omega (arith, d.counted, d.grows, fits, ap length e)) in
            (
              u,
              rest,
              script',
              turns
                  ∙ ap
                      (λ x.
                        x >>= after_flow env (λ script b s. read_loop env fuel script b n s) script)
                      calls
                  ∙ ap (λ x. if x then done (t, script, none) else read_loop env fuel script c n t)
                      (still_running m)
                  ∙ loops,
              joins (omega arith) d r,
              IsClear-append (joined bodies) r.delivered starts clear,
            )
      ]

  read_loop-last :
      (fuel : ℕ) (bodies : List Bytes) (c : Bool)
      → length (joined bodies) ≤ 2 * n
      → LoopReads
          (suc fuel)
          (part bodies c 0 (completed curle_ok 200 ∷ []) ∷ [])
          (joined bodies)
          (IsClear (joined bodies))
  unfolding read_loop
  read_loop-last fuel bodies c fits b s held v o plain h =
      let script = part bodies c 0 (completed curle_ok 200 ∷ []) ∷ [] in
      elim (Bool-cases (wants_more env b s)) [
        | inr w ↦
            not_wanted fuel script (joined bodies) b s held (IsClear (joined bodies)) v o plain h
              (last bodies c refl refl fits) w
        | inl w ↦
            let (e, turns) = wanted fuel script b s held v o w in
            let (t, rest, calls, d) = perform-last env fuel n alloc_ok bodies c s held v o plain in
            (
              t,
              rest,
              [],
              turns
                  ∙ ap
                      (λ x. x >>= after_flow env (λ script b s. read_loop env fuel script b n s) [])
                      calls,
              record {
                delivered = joined bodies;
                left = [];
                delivers = d;
                splits = sym (append-nil (joined bodies));
                transfers = over refl refl;
                bounded = omega (arith, d.counted, d.grows, fits, ap length e);
                within = omega arith;
                stops = inl refl;
              },
              λ q. q,
            )
      ]

  read_loop-over : (fuel : ℕ) → LoopReads (suc fuel) [] [] (◌≡◌ {A = ℕ} 0 0)
  unfolding read_loop
  read_loop-over fuel b s held v o plain h = elim (Bool-cases (wants_more env b s)) [
    | inr w ↦ not_wanted fuel [] [] b s held (◌≡◌ {A = ℕ} 0 0) v o plain h (over refl refl) w
    | inl w ↦
        let (e, turns) = wanted fuel [] b s held v o w in
        (
          s,
          held,
          [],
          turns,
          record {
            delivered = [];
            left = [];
            delivers = Delivers-refl s held v o;
            splits = refl;
            transfers = over refl refl;
            bounded = h;
            within = omega arith;
            stops = inl refl;
          },
          λ _. inl refl,
        )
  ]

  at_script :
      (fuel : ℕ) {script script' : List Perform} {out out' : Bytes}
      → script ≡ script'
      → out ≡ out'
      → (starts : Type 0) → LoopReads fuel script' out' starts
      → LoopReads fuel script out starts
  at_script fuel {script' = script'} {out = out} e h starts r =
      subst (λ x. LoopReads fuel x out starts) (sym e)
        (subst (λ x. LoopReads fuel script' x starts) (sym h) r)

  pub read_loop-Reads :
      (fuel : ℕ) (script : List Perform) (out : Bytes)
      → (q : Transfers n script out) → length script < fuel
      → LoopReads fuel script out (StartsLong q)
  read_loop-Reads zero script out over_script h = absurd (omega arith)
  read_loop-Reads (suc fuel) script out (over e h) enough =
      at_script (suc fuel) e h (◌≡◌ {A = ℕ} 0 0) (read_loop-over fuel)
  read_loop-Reads (suc fuel) script out (last bodies c e h fits) enough =
      at_script (suc fuel) e h (IsClear (joined bodies)) (read_loop-last fuel bodies c fits)
  read_loop-Reads (suc fuel) script out (more bodies c m rest out' e h fits over_rest) enough =
      at_script (suc fuel) e h
        ((3 < length (joined bodies)) ⊎ ((length (joined bodies) ≡ 0) × StartsLong over_rest))
        (read_loop-more fuel bodies c m rest out' fits over_rest
          (read_loop-Reads fuel rest out' over_rest (omega (arith, ap length e))))
