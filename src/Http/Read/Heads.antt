-- ===== src/Http/Read/Heads.antt =====
-- The header lines of a response in the course of a read (readBytes of src/HttpStream.cpp).
use libkolibre_xmlreader.Base.{ℕ, ◌≡◌, sym, ap, ◌∙◌, List, [], ◌∷◌, Bytes, map}
use libkolibre_xmlreader.Base.Outcome.{done, ◌>>=◌, bind-eq-done, done_inj}
use libkolibre_xmlreader.Http.Header.{header_callback}
use libkolibre_xmlreader.Http.Header.Frame.{
  Marks, lined, marks_of, IsLined, IsLined-trans, header_callback-IsLined,
}
use libkolibre_xmlreader.Http.Read.{Callback, header, Env, run_callbacks}
use libkolibre_xmlreader.Http.Stream.{HttpStream}

-- Header lines, each with the byte behind it.
abbrev pub heads : List (Bytes × ℕ) → List Callback
heads lines = map (λ (x : Bytes × ℕ). header x.0 x.1) lines

-- headerCallback takes these lines, from this stream on, with no undefined read.
abbrev pub Takes : {Z : Type 0} → Env Z → List (Bytes × ℕ) → HttpStream Z → Type 0
Takes {Z} env lines s = (t : HttpStream Z) × (run_callbacks env 0 (heads lines) s ≡ done t)

module _ {Z : Type 0} (env : Env Z) where
  heads-IsLined :
      (lines : List (Bytes × ℕ)) (s t : HttpStream Z)
      → run_callbacks env 0 (heads lines) s ≡ done t
      → IsLined s t
  unfolding run_callbacks
  heads-IsLined [] s t d = (marks_of s, sym (done_inj d))
  heads-IsLined (x ∷ lines) s t d =
      let (u, e, e') = bind-eq-done (header_callback env.zlib x.0 x.1 s) _ d in
      IsLined-trans s u t (header_callback-IsLined env.zlib x.0 x.1 s u e)
        (heads-IsLined lines u t e')

  heads-fuel :
      (fuel : ℕ) (lines : List (Bytes × ℕ)) (s t : HttpStream Z)
      → run_callbacks env 0 (heads lines) s ≡ done t
      → run_callbacks env fuel (heads lines) s ≡ done t
  unfolding run_callbacks
  heads-fuel fuel [] s t d = d
  heads-fuel fuel (x ∷ lines) s t d =
      let (u, e, e') = bind-eq-done (header_callback env.zlib x.0 x.1 s) _ d in
      ap (λ m. m >>= run_callbacks env fuel (heads lines)) e ∙ heads-fuel fuel lines u t e'

  -- Lines that are taken set nothing but the marks, whatever the fuel.
  pub Takes-lined :
      (lines : List (Bytes × ℕ)) (s : HttpStream Z)
      → Takes env lines s
      → (m : Marks) × ((fuel : ℕ) → run_callbacks env fuel (heads lines) s ≡ done (lined s m))
  Takes-lined lines s (t, d) =
      let (m, e) = heads-IsLined lines s t d in (m, λ fuel. heads-fuel fuel lines s t d ∙ ap done e)
