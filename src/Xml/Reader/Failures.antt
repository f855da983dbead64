-- ===== src/Xml/Reader/Failures.antt =====
-- What a parse of src/XmlReader.cpp that fails leaves behind.
use libkolibre_xmlreader.Base.{
  ℕ, ◌≡◌, refl, sym, ap, ◌∙◌, Bool, true, false, not, Option, none, some,
}
use libkolibre_xmlreader.Base.Outcome.{done, bind-eq-done, done_inj}
use libkolibre_xmlreader.Http.Error.{XmlError}
use libkolibre_xmlreader.Xml.Sax.{Libxml, SaxHandler, XmlReader}
use libkolibre_xmlreader.Xml.Sax.Errors.{HasError, handle-HasError}
use libkolibre_xmlreader.Xml.Reader.{Source, parse, parse_loop}
use libkolibre_xmlreader.Xml.Reader.Invariant.{parse_loop-Keeps}
use libkolibre_xmlreader.Xml.Reader.Pieces.{cleared}

not-false : (b : Bool) → false ≡ not b → b ≡ true
not-false true e = refl
not-false false e = absurd (cc)

module _ {A C S H : Type 0} (lib : Libxml C) (source : Source S H) (fuel : ℕ) (s : SaxHandler) where
  -- Whatever the stream, libxml2 and the application do, a parse that returns false leaves an error
  -- that getLastError gives.
  pub parse-false :
      (k : ℕ) (x y : Option S) (h h' : H) (r r' : XmlReader A) (c c' : C)
      → parse lib source fuel s k x h r c ≡ done (y, h', r', c', false)
      → (e : XmlError) × (r'.last_error ≡ some e)
  unfolding parse
  parse-false k none y h h' r r' c c' d =
      let q : ◌≡◌ {A = Option S × H × XmlReader A × C × Bool} _ _ = done_inj d in
      (_, ap (λ (x : Option S × H × XmlReader A × C × Bool). x.2.last_error) (sym q))
  parse-false k (some x) y h h' r r' c c' d =
      let ((z, r1, c1, b), d1, d2) =
        bind-eq-done
          (parse_loop lib source fuel s k true (source.input.use_cache r.use_cache (x, h))
            (cleared r) c)
          _ d in
      let q : ◌≡◌ {A = Option S × H × XmlReader A × C × Bool} (some z.0, z.1, r1, c1, b)
          (y, h', r', c', false) =
        done_inj d2 in
      let (has, flag) =
        parse_loop-Keeps lib fuel s HasError
          (λ e r r' c c' _ d h. handle-HasError lib fuel e r r' c c' d h) source
          (λ e r h _. (e, refl)) k true _ z (cleared r) r1 c c1 b d1 (λ e. absurd (cc)) in
      let (e, l) = has (
        not-false r1.saw_error
          (sym (ap (λ (x : Option S × H × XmlReader A × C × Bool). x.4) q) ∙ flag)) in
      (e, ap (λ (x : Option S × H × XmlReader A × C × Bool). x.2.last_error) (sym q) ∙ l)
