-- ===== src/Xml/Sax/Elements.antt =====
-- An element, from startElementHandler to endElementHandler of src/XmlReader.cpp.
use libkolibre_xmlreader.Base.{
  ℕ, ◌≡◌, ap, ◌∙◌, ◌<◌, ◌≤◌, inl, inr, Bool, false, Option, some, arith, Bytes,
}
use libkolibre_xmlreader.Base.Outcome.{Outcome, done, ◌>>=◌}
use libkolibre_xmlreader.Xml.Attributes.{XmlAttributes, new_attributes, split}
use libkolibre_xmlreader.Xml.Attributes.Lookup.{
  Given, pairs_of, array_given, attributes_given, new_attributes-array_given,
}
use libkolibre_xmlreader.Xml.Namespaces.{Namespaces, push_namespaces, uri_for_prefix}
use libkolibre_xmlreader.Xml.Namespaces.Chain.{first_uri, uri_for_prefix-first_uri}
use libkolibre_xmlreader.Xml.Namespaces.Live.{IsLive, ParentsLive, push_namespaces-IsLive}
use libkolibre_xmlreader.Xml.Namespaces.Declaring.{push_namespaces-attributes_given}
use libkolibre_xmlreader.Xml.Namespaces.Nesting.{IsSound, end_element-push_namespaces}
use libkolibre_xmlreader.Xml.Interfaces.{XmlContentHandler, Implements, start_element, end_element}
use libkolibre_xmlreader.Xml.Sax.{
  XmlReader, unless, uri_of, local_part, tell_content, start_element_handler, end_element_handler,
}

-- The namespaces are sound, and the parents of those that are there are there.
pub record IsWhole (s : Namespaces) : Type 0 where
  pub sound : IsSound s
  pub parents : ParentsLive s.objects

is_live : (s : Namespaces) → IsSound s → (a : ℕ) → s.top ≡ some a → IsLive s.objects a
unfolding IsLive
is_live s v a e = elim (v.top) [
  | inl empty ↦ absurd (cc)
  | inr (b, o, top, there, lt, pos) ↦ (o, ap (λ x. s.objects x) (let q : a ≡ b = cc in q) ∙ there)
]

below : (s : Namespaces) → IsSound s → (a : ℕ) → s.top ≡ some a → a < s.next
below s v a e = elim (v.top) [
  | inl empty ↦ absurd (cc)
  | inr (b, o, top, there, lt, pos) ↦ let q : a ≡ b = cc in omega (arith, q, lt)
]

module _ {A : Type 0} (f : Implements XmlContentHandler A) (name : Bytes) where
  -- What startElementHandler makes of a reader, with a URI for the name.
  abbrev pub started : Given → Namespaces → Option Bytes → XmlReader A → XmlReader A
  started g t uri r = record r {
    namespaces = t;
    app = (f (start_element uri (local_part name) name (split (attributes_given g))) r.app).0;
  }

  -- And endElementHandler.
  abbrev pub ended : Namespaces → Option Bytes → XmlReader A → XmlReader A
  ended s uri r = record r {
    namespaces = s;
    app = (f (end_element uri (local_part name) name) r.app).0;
  }

module _ {A C : Type 0} (f : Implements XmlContentHandler A) (fuel : ℕ) (name : Bytes) where
  start_element_handler-started :
      (g : Given) (r : XmlReader A) (c : C) (t : Namespaces) (last : ℕ) (uri : Option Bytes)
      → r.parser_stopped ≡ false
      → r.content_handler ≡ some f
      → push_namespaces (attributes_given g) r.namespaces ≡ done (t, last)
      → uri_of fuel t t.top name ≡ done uri
      → start_element_handler fuel name (array_given g) r c ≡ done (started f name g t uri r, c)
  unfolding start_element_handler
  start_element_handler-started g r c t last uri going set push found =
      ap (λ b. unless b (new_attributes (array_given g) >>= k1) r c) going
      ∙ ap (λ m. m >>= k1) (new_attributes-array_given g)
      ∙ ap (λ m. m >>= k2 (attributes_given g)) push
      ∙ ap (λ m. m >>= k3 (attributes_given g) t) found
      ∙ ap
          (λ h.
            tell_content (start_element uri (local_part name) name (split (attributes_given g))) h
              (record r { namespaces = t })
            >>= k4)
          set
    where
      k4 : XmlReader A × Bool → Outcome (XmlReader A × C)
      k4 (r', b) = done (r', c)

      k3 : XmlAttributes → Namespaces → Option Bytes → Outcome (XmlReader A × C)
      k3 attributes ns uri =
          tell_content (start_element uri (local_part name) name (split attributes))
            r.content_handler (record r { namespaces = ns })
          >>= λ (r', b). done (r', c)

      k2 : XmlAttributes → Namespaces × ℕ → Outcome (XmlReader A × C)
      k2 attributes (ns, last) = uri_of fuel ns ns.top name >>= λ uri.
          tell_content (start_element uri (local_part name) name (split attributes))
            r.content_handler (record r { namespaces = ns })
          >>= λ (r', b). done (r', c)

      k1 : XmlAttributes → Outcome (XmlReader A × C)
      k1 attributes = push_namespaces attributes r.namespaces >>= λ (ns, last).
          uri_of fuel ns ns.top name >>= λ uri.
          tell_content (start_element uri (local_part name) name (split attributes))
            r.content_handler (record r { namespaces = ns })
          >>= λ (r', b). done (r', c)

  end_element_handler-ended :
      (r : XmlReader A) (c : C) (s : Namespaces) (uri : Option Bytes)
      → r.parser_stopped ≡ false
      → r.content_handler ≡ some f
      → uri_of fuel r.namespaces r.namespaces.top name ≡ done uri
      → libkolibre_xmlreader.Xml.Namespaces.end_element fuel r.namespaces ≡ done s
      → end_element_handler fuel name r c ≡ done (ended f name s uri r, c)
  unfolding end_element_handler
  end_element_handler-ended r c s uri going set found ends =
      ap (λ b. unless b (uri_of fuel r.namespaces r.namespaces.top name >>= k1) r c) going
      ∙ ap (λ m. m >>= k1) found
      ∙ ap (λ h. tell_content (end_element uri (local_part name) name) h r >>= k2) set
      ∙ ap (λ m. m >>= λ ns. done (record (ended f name r.namespaces uri r) { namespaces = ns }, c))
          ends
    where
      k2 : XmlReader A × Bool → Outcome (XmlReader A × C)
      k2 (r', b) = libkolibre_xmlreader.Xml.Namespaces.end_element fuel r'.namespaces >>= λ ns.
          done (record r' { namespaces = ns }, c)

      k1 : Option Bytes → Outcome (XmlReader A × C)
      k1 uri =
          tell_content (end_element uri (local_part name) name) r.content_handler r >>= λ (r', b).
          libkolibre_xmlreader.Xml.Namespaces.end_element fuel r'.namespaces >>= λ ns.
          done (record r' { namespaces = ns }, c)

module _ {A C : Type 0} (f : Implements XmlContentHandler A) where
  -- From the start of an element to its end, where libxml2 gives NULL for the attributes, or an array
  -- of names with values that ends in NULL or in a name without a value: in a reader that was not stopped,
  -- has a content handler and whose namespaces are whole, startElementHandler tells the application of
  -- the element and leaves namespaces that are whole, so that elements may stand inside; and
  -- endElementHandler, for a reader with just these namespaces and the same content handler that was
  -- not stopped, tells the application and makes the namespaces what they were before the element, but
  -- for the next address.
  -- This holds for all fuel from the number of addresses that were given out on: no search for a
  -- prefix, and no release of a namespace, runs out of it.
  pub end_element_handler-start_element_handler :
      (name name' : Bytes) (g : Given) (r : XmlReader A)
      → r.parser_stopped ≡ false
      → r.content_handler ≡ some f
      → IsWhole r.namespaces
      → (t : Namespaces) × IsWhole t
        × ((fuel : ℕ) (c : C)
            → t.next ≤ fuel
            → (uri : Option Bytes) × (start_element_handler fuel name (array_given g) r c
                ≡ done (started f name g t uri r, c)))
        × ((fuel : ℕ) (r' : XmlReader A) (c' : C)
            → t.next ≤ fuel
            → r'.parser_stopped ≡ false
            → r'.content_handler ≡ some f
            → r'.namespaces ≡ t
            → (uri : Option Bytes) × (end_element_handler fuel name' r' c'
                ≡ done (ended f name' (record r.namespaces { next = t.next }) uri r', c')))
  end_element_handler-start_element_handler name name' g r going set whole =
      let (t, last, push, sound, ends) =
        end_element-push_namespaces (pairs_of g) r.namespaces whole.sound in
      let (parents, here, top) =
        push_namespaces-IsLive (pairs_of g) r.namespaces t last whole.parents
          (is_live r.namespaces whole.sound) push in
      let small : last < t.next = below t sound last top in
      let find_uri : (fuel : ℕ) (n : Bytes)
          → t.next ≤ fuel
          → (uri : Option Bytes) × (uri_of fuel t t.top n ≡ done uri) =
        (λ fuel n le.
          let (chain, _, d) =
            uri_for_prefix-first_uri fuel t.objects last n sound.older parents here
              (omega (arith, small, le)) in
          (first_uri n chain, ap (λ x. uri_of fuel t x n) top ∙ d)) in
      (
        t,
        record { sound = sound; parents = parents },
        (λ fuel c le.
            let (uri, d) = find_uri fuel name le in
            (
              uri,
              start_element_handler-started f fuel name g r c t last uri going set
                  (push_namespaces-attributes_given g r.namespaces ∙ push) d,
            )),
        (λ fuel r' c' le going' set' same.
            let (uri, d) = find_uri fuel name' le in
            (
              uri,
              end_element_handler-ended f fuel name' r' c' (record r.namespaces { next = t.next })
                  uri going' set' (ap (λ (n : Namespaces). uri_of fuel n n.top name') same ∙ d)
                  (ap (libkolibre_xmlreader.Xml.Namespaces.end_element fuel) same ∙ ends fuel le),
            )),
      )
