-- ===== src/Xml/Sax/Stopped.antt =====
-- What the callbacks of src/XmlReader.cpp do once the parser was stopped.
use libkolibre_xmlreader.Base.{ℕ, ◌≡◌, refl, ap, Bool, true, false}
use libkolibre_xmlreader.Base.Outcome.{Outcome, done, ◌>>=◌}
use libkolibre_xmlreader.Xml.Sax.{
  Libxml, XmlReader, Event, document_starts, document_ends, element_starts, element_ends, text,
  cdata_block, remark, instruction, warns, errs, errs_fatally, asks_entity, unless, give_entity,
  handle,
}

-- The events whose callbacks do not look whether the parser was stopped.
abbrev pub is_heard : Event → Bool
is_heard document_starts = true
is_heard document_ends = true
is_heard (remark s) = true
is_heard _ = false

module _ {A C : Type 0} where
  unless-stopped :
      (b : Bool) (rest : Outcome (XmlReader A × C)) (r : XmlReader A) (c : C)
      → b ≡ true
      → unless b rest r c ≡ done (r, c)
  unless-stopped true rest r c e = refl
  unless-stopped false rest r c e = absurd (cc)

module _ {A C : Type 0} (lib : Libxml C) (fuel : ℕ) where
  -- Once the parser was stopped, every event but the start and the end of the document and a comment
  -- passes without a trace: its callback returns, and the reader, with its namespaces, its errors and
  -- the state of the application, is as it was.
  pub handle-stopped :
      (e : Event) (r : XmlReader A) (c : C)
      → r.parser_stopped ≡ true
      → is_heard e ≡ false
      → (c' : C) × (handle lib fuel e r c ≡ done (r, c'))
  unfolding handle
  handle-stopped document_starts r c p h = absurd (cc)
  handle-stopped document_ends r c p h = absurd (cc)
  handle-stopped (remark s) r c p h = absurd (cc)
  handle-stopped (element_starts name array) r c p h = (c, unless-stopped _ _ r c p)
  handle-stopped (element_ends name) r c p h = (c, unless-stopped _ _ r c p)
  handle-stopped (text s) r c p h = (c, unless-stopped _ _ r c p)
  handle-stopped (instruction target value) r c p h = (c, unless-stopped _ _ r c p)
  handle-stopped (cdata_block s) r c p h = (c, unless-stopped _ _ r c p)
  handle-stopped warns r c p h = (c, unless-stopped _ _ r c p)
  handle-stopped errs r c p h = (c, unless-stopped _ _ r c p)
  handle-stopped errs_fatally r c p h = (c, unless-stopped _ _ r c p)
  handle-stopped (asks_entity name) r c p h = by_entity (lib.is_predefined name)
    where
      by_entity : (b : Bool) → (c' : C) × (give_entity lib b r c ≡ done (r, c'))
      by_entity true = (lib.with_entity true c, refl)
      by_entity false = (
        lib.with_entity false c,
        ap (λ w. w >>= λ (r', c'). done (r', lib.with_entity false c')) (unless-stopped _ _ r c p),
      )
