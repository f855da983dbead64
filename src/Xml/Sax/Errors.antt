-- ===== src/Xml/Sax/Errors.antt =====
-- What the callbacks of src/XmlReader.cpp do to the errors that the reader has.
use libkolibre_xmlreader.Base.{
  ℕ, ◌≡◌, refl, sym, subst, ap, ◌∙◌, Bool, true, false, Option, none, some, List, Bytes,
}
use libkolibre_xmlreader.Base.Outcome.{Outcome, done, ◌>>=◌, bind-eq-done, done_inj}
use libkolibre_xmlreader.Http.Error.{XmlError}
use libkolibre_xmlreader.Xml.Attributes.{new_attributes, split}
use libkolibre_xmlreader.Xml.Namespaces.{Namespaces, push_namespaces}
use libkolibre_xmlreader.Xml.Interfaces.{
  XmlContentHandler, XmlLexicalHandler, XmlErrorHandler, Implements, start_document, end_document,
  start_element, characters, processing_instruction, start_cdata, end_cdata, comment, warning,
  error, fatal_error,
}
use libkolibre_xmlreader.Xml.Sax.{
  Libxml, XmlReader, Event, document_starts, document_ends, element_starts, element_ends, text,
  cdata_block, remark, instruction, warns, errs, errs_fatally, asks_entity, unless, unless_wanted,
  warn, record_error, give_entity, uri_of, local_part, tell_content, tell_lexical, stop_parsing,
  warning_handler, handle,
}

-- An error that was recorded can be asked for.
abbrev pub HasError : {A : Type 0} → XmlReader A → Type 0
HasError r = r.saw_error ≡ true → (e : XmlError) × (r.last_error ≡ some e)

-- The errors of two readers are the same.
record Same {A : Type 0} (r r' : XmlReader A) : Type 0 where
  saw : r'.saw_error ≡ r.saw_error
  last : r'.last_error ≡ r.last_error

module _ {A : Type 0} where
  Same-refl : {r : XmlReader A} → Same r r
  Same-refl = record { saw = refl; last = refl }

  Same-trans : {r1 r2 r3 : XmlReader A} → Same r1 r2 → Same r2 r3 → Same r1 r3
  Same-trans p q = record { saw = q.saw ∙ p.saw; last = q.last ∙ p.last }

  Same-HasError : {r r' : XmlReader A} → Same r r' → HasError r → HasError r'
  Same-HasError p h e = let (x, f) = h (sym p.saw ∙ e) in (x, p.last ∙ f)

  tell_content-Same :
      (call : XmlContentHandler) (f : Option (Implements XmlContentHandler A)) (r r' : XmlReader A)
      (b : Bool)
      → tell_content call f r ≡ done (r', b)
      → Same r r'
  tell_content-Same call none r r' b e = absurd (cc)
  tell_content-Same call (some f) r r' b e =
      let q : ◌≡◌ {A = XmlReader A × Bool} _ _ = done_inj e in
      subst (Same r) (ap (λ (x : XmlReader A × Bool). x.0) q) (record { saw = refl; last = refl })

  tell_lexical-Same :
      (call : XmlLexicalHandler) (f : Option (Implements XmlLexicalHandler A)) (r r' : XmlReader A)
      (b : Bool)
      → tell_lexical call f r ≡ done (r', b)
      → Same r r'
  tell_lexical-Same call none r r' b e = absurd (cc)
  tell_lexical-Same call (some f) r r' b e =
      let q : ◌≡◌ {A = XmlReader A × Bool} _ _ = done_inj e in
      subst (Same r) (ap (λ (x : XmlReader A × Bool). x.0) q) (record { saw = refl; last = refl })

module _ {A C : Type 0} where
  reader_of :
      {r r' : XmlReader A} {c c' : C}
      → ◌≡◌ {A = Outcome (XmlReader A × C)} (done (r, c)) (done (r', c'))
      → r ≡ r'
  reader_of e =
      let q : ◌≡◌ {A = XmlReader A × C} _ _ = done_inj e in ap (λ (x : XmlReader A × C). x.0) q

  -- Same errors, when the callback returns.
  abbrev Keeps : XmlReader A → Outcome (XmlReader A × C) → Type 0
  Keeps r m = (r' : XmlReader A) (c' : C) → m ≡ done (r', c') → Same r r'

  unless-Keeps :
      (b : Bool) (rest : Outcome (XmlReader A × C)) (r : XmlReader A) (c : C)
      → Keeps r rest
      → Keeps r (unless b rest r c)
  unless-Keeps true rest r c k r' c' e = subst (Same r) (reader_of e) Same-refl
  unless-Keeps false rest r c k r' c' e = k r' c' e

  content-Keeps :
      (call : XmlContentHandler) (f : Option (Implements XmlContentHandler A)) (r r0 : XmlReader A)
      (c : C)
      → Same r0 r
      → Keeps r0 (tell_content call f r >>= λ (r', b). done (r', c))
  content-Keeps call f r r0 c p r' c' e =
      let ((r1, b), d, e') = bind-eq-done (tell_content call f r) (λ (r', b). done (r', c)) e in
      Same-trans p (subst (Same r) (reader_of e') (tell_content-Same call f r r1 b d))

  comment-Keeps :
      (call : XmlLexicalHandler) (f : Option (Implements XmlLexicalHandler A)) (r : XmlReader A)
      (c : C)
      → Keeps r (tell_lexical call f r >>= λ (r', b). done (r', c))
  comment-Keeps call f r c r' c' e =
      let ((r1, b), d, e') = bind-eq-done (tell_lexical call f r) (λ (r', b). done (r', c)) e in
      subst (Same r) (reader_of e') (tell_lexical-Same call f r r1 b d)

  cdata-Keeps :
      (s : Bytes) (r : XmlReader A) (c : C)
      → Keeps r (
          tell_lexical start_cdata r.lexical_handler r >>= λ (r1, b1).
          tell_content (characters s) r1.content_handler r1 >>= λ (r2, b2).
          tell_lexical end_cdata r2.lexical_handler r2 >>= λ (r3, b3). done (r3, c))
  cdata-Keeps s r c r' c' e =
      let ((r1, b1), d1, e1) = bind-eq-done (tell_lexical start_cdata r.lexical_handler r) _ e in
      let ((r2, b2), d2, e2) =
        bind-eq-done (tell_content (characters s) r1.content_handler r1) _ e1 in
      Same-trans (tell_lexical-Same start_cdata r.lexical_handler r r1 b1 d1) (
        Same-trans (tell_content-Same (characters s) r1.content_handler r1 r2 b2 d2)
          (comment-Keeps end_cdata r2.lexical_handler r2 c r' c' e2))

  start-Keeps :
      (fuel : ℕ) (name : Bytes) (array : Option (List (Option Bytes))) (r : XmlReader A) (c : C)
      → Keeps r (
          new_attributes array >>= λ attributes.
          push_namespaces attributes r.namespaces >>= λ (ns, last).
          uri_of fuel ns ns.top name >>= λ uri.
          tell_content
            (start_element uri (local_part name) name (split attributes))
            r.content_handler
            (record r { namespaces = ns })
          >>= λ (r', b). done (r', c))
  start-Keeps fuel name array r c r' c' e =
      let (a, d1, e1) = bind-eq-done (new_attributes array) _ e in
      let ((ns, l), d2, e2) = bind-eq-done (push_namespaces a r.namespaces) _ e1 in
      let (uri, d3, e3) = bind-eq-done (uri_of fuel ns ns.top name) _ e2 in
      content-Keeps (start_element uri (local_part name) name (split a)) r.content_handler
        (record r { namespaces = ns }) r c (record { saw = refl; last = refl }) r' c' e3

  end-Keeps :
      (fuel : ℕ) (name : Bytes) (r : XmlReader A) (c : C)
      → Keeps r (
          uri_of fuel r.namespaces r.namespaces.top name >>= λ uri.
          tell_content
            (libkolibre_xmlreader.Xml.Interfaces.end_element uri (local_part name) name)
            r.content_handler
            r
          >>= λ (r', b).
              libkolibre_xmlreader.Xml.Namespaces.end_element fuel r'.namespaces >>= λ ns.
              done (record r' { namespaces = ns }, c))
  end-Keeps fuel name r c r' c' e =
      let (uri, d1, e1) = bind-eq-done (uri_of fuel r.namespaces r.namespaces.top name) _ e in
      let ((r1, b), d2, e2) =
        bind-eq-done
          (tell_content (libkolibre_xmlreader.Xml.Interfaces.end_element uri (local_part name) name)
            r.content_handler r)
          _ e1 in
      let (ns, d3, e3) =
        bind-eq-done (libkolibre_xmlreader.Xml.Namespaces.end_element fuel r1.namespaces) _ e2 in
      let done1 : Same r1 (record r1 { namespaces = ns }) = record { saw = refl; last = refl } in
      subst (Same r) (reader_of e3)
        (Same-trans (tell_content-Same _ r.content_handler r r1 b d2) done1)

module _ {A C : Type 0} (lib : Libxml C) where
  -- The last error is there, whatever the application answers.
  last-unless_wanted :
      (x : XmlError) (b : Bool) (a : A) (r : XmlReader A) (c : C)
      → (unless_wanted lib b (record r { last_error = some x; app = a }) c).0.last_error ≡ some x
  unfolding stop_parsing
  last-unless_wanted x true a r c = refl
  last-unless_wanted x false a r c = refl

  warn-HasError :
      (f : Option (Implements XmlErrorHandler A)) (r : XmlReader A) (c : C)
      → HasError r
      → HasError (warn lib f r c).0
  warn-HasError none r c h e = h e
  warn-HasError (some f) r c h e =
      (_, last-unless_wanted _ (f (warning _) r.app).1 (f (warning _) r.app).0 r c)

  record_error-HasError :
      (f : Option (Implements XmlErrorHandler A)) (call : XmlError → XmlErrorHandler)
      (r : XmlReader A) (c : C)
      → HasError r
      → HasError (record_error lib f call r c).0
  unfolding stop_parsing
  record_error-HasError none call r c h e = h e
  record_error-HasError (some f) call r c h e =
      (_, last-unless_wanted _ (f (call _) r.app).1 (f (call _) r.app).0 r c)

  -- An error that was recorded can be asked for, when the callback returns.
  abbrev Holds : XmlReader A → Outcome (XmlReader A × C) → Type 0
  Holds r m = (r' : XmlReader A) (c' : C) → m ≡ done (r', c') → HasError r → HasError r'

  unless-Holds :
      (b : Bool) (x : XmlReader A × C) (r : XmlReader A) (c : C)
      → (HasError r → HasError x.0)
      → Holds r (unless b (done x) r c)
  unless-Holds true x r c k r' c' e h = subst HasError (reader_of e) h
  unless-Holds false x r c k r' c' e h = subst HasError (reader_of e) (k h)

  Keeps-Holds : (r : XmlReader A) (m : Outcome (XmlReader A × C)) → Keeps r m → Holds r m
  Keeps-Holds r m k r' c' e h = Same-HasError (k r' c' e) h

  give_entity-Holds : (b : Bool) (r : XmlReader A) (c : C) → Holds r (give_entity lib b r c)
  unfolding warning_handler
  give_entity-Holds true r c r' c' e h = subst HasError (reader_of e) h
  give_entity-Holds false r c r' c' e h =
      let ((r1, c1), d, e1) = bind-eq-done (warning_handler lib r c) _ e in
      subst HasError (reader_of e1) (
        unless-Holds r.parser_stopped (warn lib r.error_handler r c) r c
          (warn-HasError r.error_handler r c) r1 c1 d h)

  -- Every callback keeps it that a reader that recorded an error has a last error.
  pub handle-HasError :
      (fuel : ℕ) (e : Event) (r r' : XmlReader A) (c c' : C)
      → handle lib fuel e r c ≡ done (r', c')
      → HasError r
      → HasError r'
  unfolding handle
  handle-HasError fuel document_starts r r' c c' d h =
      Keeps-Holds r _ (content-Keeps start_document r.content_handler r r c Same-refl) r' c' d h
  handle-HasError fuel document_ends r r' c c' d h =
      Keeps-Holds r _
        (content-Keeps end_document r.content_handler (record r { end_document_called = true }) r c
          (record { saw = refl; last = refl }))
        r' c' d h
  handle-HasError fuel (element_starts name array) r r' c c' d h =
      Keeps-Holds r _ (unless-Keeps r.parser_stopped _ r c (start-Keeps fuel name array r c)) r' c'
        d h
  handle-HasError fuel (element_ends name) r r' c c' d h =
      Keeps-Holds r _ (unless-Keeps r.parser_stopped _ r c (end-Keeps fuel name r c)) r' c' d h
  handle-HasError fuel (text s) r r' c c' d h =
      Keeps-Holds r _
        (unless-Keeps r.parser_stopped _ r c
          (content-Keeps (characters s) r.content_handler r r c Same-refl))
        r' c' d h
  handle-HasError fuel (instruction target value) r r' c c' d h =
      Keeps-Holds r _
        (unless-Keeps r.parser_stopped _ r c
          (content-Keeps (processing_instruction target value) r.content_handler r r c Same-refl))
        r' c' d h
  handle-HasError fuel (cdata_block s) r r' c c' d h =
      Keeps-Holds r _ (unless-Keeps r.parser_stopped _ r c (cdata-Keeps s r c)) r' c' d h
  handle-HasError fuel (remark s) r r' c c' d h =
      Keeps-Holds r _ (comment-Keeps (comment s) r.lexical_handler r c) r' c' d h
  handle-HasError fuel warns r r' c c' d h =
      unless-Holds r.parser_stopped (warn lib r.error_handler r c) r c
        (warn-HasError r.error_handler r c) r' c' d h
  handle-HasError fuel errs r r' c c' d h =
      unless-Holds r.parser_stopped (record_error lib r.error_handler error r c) r c
        (record_error-HasError r.error_handler error r c) r' c' d h
  handle-HasError fuel errs_fatally r r' c c' d h =
      unless-Holds r.parser_stopped (record_error lib r.error_handler fatal_error r c) r c
        (record_error-HasError r.error_handler fatal_error r c) r' c' d h
  handle-HasError fuel (asks_entity name) r r' c c' d h =
      give_entity-Holds (lib.is_predefined name) r c r' c' d h
