-- ===== src/Xml/Reader/Html.antt =====
-- parseHtml of src/XmlReader.cpp: the preparses and what follows them.
use libkolibre_xmlreader.Base.{
  ℕ, ◌≡◌, refl, subst, ap, ◌∙◌, Bool, true, false, Option, none, some, Bytes,
}
use libkolibre_xmlreader.Base.Outcome.{done, ◌>>=◌, bind-eq-done, done_inj}
use libkolibre_xmlreader.Xml.Sax.{
  Libxml, XmlReader, Event, document_starts, document_ends, element_starts, element_ends, text,
  cdata_block, remark, instruction, warns, errs, errs_fatally, asks_entity, html,
}
use libkolibre_xmlreader.Xml.Reader.{
  Source, parse, parse_loop, calls, null_handler, new_source, delete_source, preparse,
  preparse_tidied, parse_valid, parse_html,
}
use libkolibre_xmlreader.Xml.Reader.Invariant.{parse_loop-Keeps}
use libkolibre_xmlreader.Xml.Reader.Pieces.{cleared}

-- The application was not called, and the namespaces were not touched.
pub record IsUntouched {A : Type 0} (r r' : XmlReader A) : Type 0 where
  pub app : r'.app ≡ r.app
  pub namespaces : r'.namespaces ≡ r.namespaces

IsUntouched-trans :
    {A : Type 0} {r1 r2 r3 : XmlReader A}
    → IsUntouched r1 r2
    → IsUntouched r2 r3
    → IsUntouched r1 r3
IsUntouched-trans p q = record { app = q.app ∙ p.app; namespaces = q.namespaces ∙ p.namespaces }

calls-null_handler : (e : Event) → calls null_handler e ≡ false
calls-null_handler document_starts = refl
calls-null_handler document_ends = refl
calls-null_handler (element_starts name array) = refl
calls-null_handler (element_ends name) = refl
calls-null_handler (text s) = refl
calls-null_handler (cdata_block s) = refl
calls-null_handler (remark s) = refl
calls-null_handler (instruction target value) = refl
calls-null_handler warns = refl
calls-null_handler errs = refl
calls-null_handler errs_fatally = refl
calls-null_handler (asks_entity name) = refl

module _ {A C S H : Type 0} (lib : Libxml C) (source : Source S H) (fuel k : ℕ) where
  parse-IsUntouched :
      (d d' : Option S) (h h' : H) (r r' : XmlReader A) (c c' : C) (b : Bool)
      → parse lib source fuel null_handler k d h r c ≡ done (d', h', r', c', b)
      → IsUntouched r r'
  unfolding parse
  parse-IsUntouched none d' h h' r r' c c' b e =
      let q : ◌≡◌ {A = Option S × H × XmlReader A × C × Bool} _ _ = done_inj e in
      subst (IsUntouched r) (ap (λ (x : Option S × H × XmlReader A × C × Bool). x.2) q)
        (record { app = refl; namespaces = refl })
  parse-IsUntouched (some x) d' h h' r r' c c' b e =
      let ((y, r1, c1, b1), e1, e2) =
        bind-eq-done
          (parse_loop lib source fuel null_handler k true
            (source.input.use_cache r.use_cache (x, h)) (cleared r) c)
          _ e in
      let q : ◌≡◌ {A = Option S × H × XmlReader A × C × Bool} (some y.0, y.1, r1, c1, b1)
          (d', h', r', c', b) =
        done_inj e2 in
      let (same, _) =
        parse_loop-Keeps lib fuel null_handler (IsUntouched r)
          (λ e r r' c c' t d h. let f = calls-null_handler e in absurd (cc)) source
          (λ e r p. record { app = p.app; namespaces = p.namespaces }) k true _ y (cleared r) r1 c
          c1 b1 e1 (record { app = refl; namespaces = refl }) in
      subst (IsUntouched r) (ap (λ (x : Option S × H × XmlReader A × C × Bool). x.2) q) same

  preparse-IsUntouched :
      (uri : Bytes) (tidyflag b : Bool) (h h' : H) (r r' : XmlReader A)
      → preparse lib source fuel k uri tidyflag h r ≡ done (h', r', b)
      → IsUntouched r r'
  unfolding preparse
  preparse-IsUntouched uri tidyflag b h h' r r' e =
      let ((h1, ds), _, e1) = bind-eq-done (new_source source uri tidyflag h) _ e in
      let ((x, h2, r2, c, ok), d, e2) =
        bind-eq-done (parse lib source fuel null_handler k ds.inpstr h1 r (lib.create html)) _ e1 in
      let (h3, _, e3) = bind-eq-done (delete_source source x h2) _ e2 in
      let q : ◌≡◌ {A = H × XmlReader A × Bool} (h3, r2, ok) (h', r', b) = done_inj e3 in
      subst (IsUntouched r) (ap (λ (x : H × XmlReader A × Bool). x.1) q)
        (parse-IsUntouched ds.inpstr x h1 h2 r r2 (lib.create html) c ok d)

  -- A document that fails in both preparses, as it is and tidied, makes parseHtml return false, and
  -- not one callback of the application was called and no namespace was touched.
  pub parse_html-IsUntouched :
      (uri : Bytes) (h h1 h2 : H) (r r1 r2 : XmlReader A)
      → preparse lib source fuel k uri false h (record r { doctype = html }) ≡ done (h1, r1, false)
      → preparse lib source fuel k uri true h1 r1 ≡ done (h2, r2, false)
      → (parse_html lib source fuel k uri h r ≡ done (h2, r2, false)) × IsUntouched r r2
  unfolding parse_html parse_valid
  parse_html-IsUntouched uri h h1 h2 r r1 r2 e1 e2 = (
    ap (λ m. m >>= preparse_tidied lib source fuel k uri >>= parse_valid lib source fuel k uri) e1
        ∙ ap (λ m. m >>= parse_valid lib source fuel k uri) e2,
    IsUntouched-trans
        (let p = preparse-IsUntouched uri false false h h1 (record r { doctype = html }) r1 e1 in
          record { app = p.app; namespaces = p.namespaces })
        (preparse-IsUntouched uri true false h1 h2 r1 r2 e2),
  )
