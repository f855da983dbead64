-- ===== src/Http/Read/Opening.antt =====
-- The first calls of curl in a download bring the header lines of the response (readBytes of
-- src/HttpStream.cpp).
use libkolibre_xmlreader.Base.{
  ℕ, suc, ◌+◌, ◌<◌, ◌≡◌, sym, subst, ap, ◌∙◌, Bool, true, false, ltb, ◌==◌, ◌&&◌, ◌||◌, not, none,
  List, [], ◌∷◌, ◌++◌, if◌then◌else◌, Bytes, length, map, arith,
}
use libkolibre_xmlreader.Base.Outcome.{done, ◌>>=◌, done_inj}
use libkolibre_xmlreader.Http.Header.Frame.{Marks, lined, marks_of}
use libkolibre_xmlreader.Http.Read.{
  Perform, Env, round, turn, after_flow, read_loop, perform, handle_messages, run_callbacks,
}
use libkolibre_xmlreader.Http.Read.Condition.{no_room, still_running}
use libkolibre_xmlreader.Http.Read.Heads.{heads, Takes-lined}
use libkolibre_xmlreader.Http.Stream.{HttpStream}
use libkolibre_xmlreader.Http.Transfer.{at_most}

-- A call that brings header lines, or nothing, while the transfer goes on.
pub record Opening : Type 0 where
  pub lines : List (Bytes × ℕ)
  pub call_again : Bool
  pub others : ℕ

abbrev pub call_of : Opening → Perform
call_of o = record {
  callbacks = heads o.lines;
  call_again = o.call_again;
  running = suc o.others;
  messages = [];
}

-- headerCallback takes the lines of these calls with no undefined read, and leaves `t`.
abbrev pub Opens : {Z : Type 0} → Env Z → List Opening → HttpStream Z → HttpStream Z → Type 0
Opens env [] s t = t ≡ s
Opens {Z} env (o ∷ rest) s t =
    (u : HttpStream Z) × (run_callbacks env 0 (heads o.lines) s ≡ done u) × Opens env rest u t

module _ {Z : Type 0} (env : Env Z) (n : ℕ) where
  goes_on :
      (room read : ℕ) (b cached : Bool)
      → 0 < room
      → read ≡ 0
      → cached ≡ false
      → (ltb 0 room && (b || read == 0) && not cached) ≡ true
  goes_on room read b cached h e k = ground (arith, h, e, k)

  -- One such call in the loop, before any byte came.
  open_once :
      (fuel : ℕ) (o : Opening) (script : List Perform) (b : Bool) (s : HttpStream Z) (m : Marks)
      → 0 < s.bytes_to_read
      → s.bytes_read ≡ 0
      → s.stream_from_cache ≡ false
      → s.buffer_size ≡ 0
      → run_callbacks env fuel (heads o.lines) s ≡ done (lined s m)
      → read_loop env (suc fuel) (call_of o ∷ script) b n s
        ≡ read_loop env fuel script o.call_again n (lined s m)
  unfolding read_loop perform
  open_once fuel o script b s m room fresh cached held runs =
      ap
        (λ x.
          turn env (λ script b s. read_loop env fuel script b n s) fuel n x (call_of o ∷ script) s)
        (goes_on s.bytes_to_read s.bytes_read b s.stream_from_cache room fresh cached)
      ∙ ap
          (λ x.
            round env (λ script b s. read_loop env fuel script b n s) fuel n
              (ltb 0 (at_most x s.bytes_to_read)) (call_of o ∷ script) s)
          held
      ∙ ap
          (λ x.
            round env (λ script b s. read_loop env fuel script b n s) fuel n x (call_of o ∷ script)
              s)
          (no_room s.bytes_to_read)
      ∙ ap
          (λ x.
            (x >>= handle_messages env [] o.call_again (suc o.others) n)
            >>= after_flow env (λ script b s. read_loop env fuel script b n s) script)
          runs
      ∙ ap
          (λ x.
            if x
            then done (lined s m, script, none)
            else read_loop env fuel script o.call_again n (lined s m))
          (still_running o.others)

  -- The loop comes behind these calls, and nothing but what header lines set has changed.
  pub open_all :
      (fuel : ℕ) (openings : List Opening) (script : List Perform) (b : Bool) (s t : HttpStream Z)
      → 0 < s.bytes_to_read
      → s.bytes_read ≡ 0
      → s.stream_from_cache ≡ false
      → s.buffer_size ≡ 0
      → Opens env openings s t
      → (c : Bool) × (m : Marks) × (t ≡ lined s m)
        × (read_loop env (length openings + fuel) (map call_of openings ++ script) b n s
            ≡ read_loop env fuel script c n (lined s m))
  open_all fuel [] script b s t room fresh cached held e =
      (b, marks_of s, e, ap (λ k. read_loop env k script b n s) (omega arith))
  open_all fuel (o ∷ rest) script b s t room fresh cached held (u, runs, opens) =
      let (m, again) = Takes-lined env o.lines s (u, runs) in
      let same : u ≡ lined s m = done_inj (sym runs ∙ again 0) in
      let (c, m', e, loops) =
        open_all fuel rest script o.call_again (lined s m) t room fresh cached held
          (subst (λ x. Opens env rest x t) same opens) in
      (
        c,
        m',
        e,
        ap (λ k. read_loop env k (map call_of (o ∷ rest) ++ script) b n s) (omega arith)
            ∙ open_once (length rest + fuel) o (map call_of rest ++ script) b s m room fresh cached
                held (again (length rest + fuel))
            ∙ loops,
      )
