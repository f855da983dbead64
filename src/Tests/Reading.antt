-- ===== src/Tests/Reading.antt =====
-- Runs of the parsing of src/XmlReader.cpp at concrete inputs. libxml2 is stood in for by a parser that
-- makes one event of each chunk, and fails at a chunk that begins with `!`.
use libkolibre_xmlreader.Base.{
  ℕ, suc, ◌≡◌, ◌≤◌, refl, Bool, true, false, not, Option, none, some, List, [], ◌∷◌, ◌++◌, Bytes,
  codes, starts_with, length, arith,
}
use libkolibre_xmlreader.Base.Outcome.{Outcome, done}
use libkolibre_xmlreader.Http.Error.{XmlError, read_failed}
use libkolibre_xmlreader.Stream.{Got, got, failed, ends, serves}
use libkolibre_xmlreader.Xml.Attributes.Lookup.{present, array_given, null}
use libkolibre_xmlreader.Xml.Namespaces.{Namespaces, new_stack}
use libkolibre_xmlreader.Xml.Namespaces.Live.{ParentsLive}
use libkolibre_xmlreader.Xml.Interfaces.{
  XmlContentHandler, Implements, default_lexical, default_error,
}
use libkolibre_xmlreader.Xml.Sax.{
  html, Event, text, errs, Libxml, SaxHandler, XmlReader, new_reader, handle, start_element_handler,
  end_element_handler,
}
use libkolibre_xmlreader.Xml.Sax.Stopped.{handle-stopped}
use libkolibre_xmlreader.Xml.Sax.Elements.{
  IsWhole, started, ended, end_element_handler-start_element_handler,
}
use libkolibre_xmlreader.Xml.Reader.{
  Source, sax_handler, mark, parse, parse_chunk, parse_html, preparse,
}
use libkolibre_xmlreader.Xml.Reader.Pieces.{fed, feeds, cleared, parse-Feeds}
use libkolibre_xmlreader.Xml.Reader.Ends.{Ends, parse-mark, parse-short, parse-true}
use libkolibre_xmlreader.Xml.Reader.Failures.{parse-false}
use libkolibre_xmlreader.Xml.Reader.Html.{IsUntouched, parse_html-IsUntouched}
use libkolibre_xmlreader.File.{FileStream, new_file}
use libkolibre_xmlreader.File.Whole.{chunks}
use libkolibre_xmlreader.Xml.Reader.Files.{file_source, parse-new_file}
use libkolibre_xmlreader.Tests.{plain}
use libkolibre_xmlreader.Tests.Sources.{files, Holds, files-IsReadable}
use libkolibre_xmlreader.Tests.Elements.{declaring, new_stack-IsSound}

-- What was handed over, the events to come, and what the call returns.
pub record Context : Type 0 where
  pub taken : Bytes
  pub events : List Event
  pub code : ℕ

abbrev next_event : Context → List Event → Context × Option Event
next_event c [] = (c, none)
next_event c (e ∷ rest) = (record c { events = rest }, some e)

abbrev take_chunk : Bool → Bytes → Context → Context
take_chunk true bytes c = record c { events = errs ∷ []; code = 1 }
take_chunk false bytes c = record { taken = c.taken ++ bytes; events = text bytes ∷ []; code = 0 }

abbrev pub parser : Libxml Context
parser = record {
  create = λ d. record { taken = []; events = []; code = 0 };
  chunk = λ d bytes c. take_chunk (starts_with (codes "!") bytes) bytes c;
  callback = λ c. next_event c c.events;
  result = λ c. c.code;
  stop = λ c. record c { events = [] };
  last_error = λ c. none;
  context_error = λ c. none;
  column = λ c. length c.taken;
  line = λ c. 1;
  is_predefined = λ name. false;
  with_entity = λ known c. c;
}

abbrev pub start : Context
start = record { taken = []; events = []; code = 0 }

-- A stream is what its reads give; the handler counts the streams that it made.
abbrev next_read : List Got × ℕ → Outcome ((List Got × ℕ) × Got)
next_read ([], h) = done (([], h), got [])
next_read (g ∷ rest, h) = done ((rest, h), g)

abbrev source : Source (List Got) ℕ
source = record {
  new_stream = λ url tidyflag h. done (suc h, some (got url ∷ []));
  input = record {
    read_bytes = λ n x. next_read x;
    use_cache = λ b x. x;
    error_msg = λ x. codes "gone";
    error_code = λ x. read_failed;
  };
  delete = λ s h. done h;
}

-- An application that counts the calls of its content handler.
abbrev counts : Implements XmlContentHandler ℕ
counts call a = (suc a, true)

abbrev pub reader : XmlReader ℕ
reader = record (new_reader false false false 0) {
  content_handler = some counts;
  lexical_handler = some default_lexical;
  error_handler = some default_error;
}

abbrev pub callbacks : SaxHandler
callbacks = sax_handler reader

abbrev told : ℕ → XmlReader ℕ
told n = record (cleared reader) { app = n }

abbrev took : Bytes → Context
took bytes = record { taken = bytes; events = []; code = 0 }

parse-Feeds_example :
    parse parser source 9 callbacks 5
      (some (got (mark ++ codes "<a>") ∷ got (codes "b") ∷ []))
      7
      reader
      start
    ≡ done (some [], 7, told 2, took (codes "<a>b"), not (told 2).saw_error)
unfolding parse_chunk handle sax_handler
parse-Feeds_example =
    parse-Feeds parser source 9 callbacks 5 ((mark ++ codes "<a>") ∷ codes "b" ∷ [])
      (got (mark ++ codes "<a>") ∷ got (codes "b") ∷ []) 7 ([], 7) reader (told 2) start
      (took (codes "<a>b")) (omega arith) (omega arith)
      (serves refl (omega arith) (serves refl (omega arith) (ends refl)))
      (feeds refl (feeds refl fed))

abbrev no_stream : Bytes → Bool → ℕ → Outcome (ℕ × Option (FileStream ℕ Bytes))
no_stream url tidyflag h = done (h, none)

abbrev close : FileStream ℕ Bytes → ℕ → Outcome ℕ
close s h = done h

parse-new_file_example :
    (t : FileStream ℕ Bytes) × (parse parser
        (file_source plain files 9 no_stream close)
        9
        callbacks
        6
        (some (new_file (codes "a.xml") none))
        7
        reader
        start
      ≡ done (some t, 7, told 1, took (codes "<a/>\n"), not (told 1).saw_error))
    × (t.total_bytes_read ≡ length (codes "<a/>\n"))
unfolding parse_chunk handle sax_handler chunks
parse-new_file_example =
    parse-new_file plain files Holds files-IsReadable parser 9 callbacks no_stream close 6
      (codes "a.xml") (codes "<a/>\n") 5 (codes "<a/>\n") 7 reader (told 1) start
      (took (codes "<a/>\n")) refl refl refl (omega arith) (omega arith) (feeds refl fed)

parse-mark_example :
    parse parser source 9 callbacks 5 (some (got mark ∷ got (codes "<a>b") ∷ [])) 7 reader start
    ≡ done (some (got (codes "<a>b") ∷ []), 7, cleared reader, start, true)
parse-mark_example =
    parse-mark parser source 9 callbacks 4 (got mark ∷ got (codes "<a>b") ∷ []) 7
      (got (codes "<a>b") ∷ [], 7) reader start refl

parse-short_example :
    parse parser source 9 callbacks 5
      (some (got (codes "<a") ∷ got (mark ++ codes ">") ∷ []))
      7
      reader
      start
    ≡ done (some [], 7, told 2, took (codes "<a>"), not (told 2).saw_error)
unfolding parse_chunk handle sax_handler
parse-short_example =
    parse-short parser source 9 callbacks 3 (got (codes "<a") ∷ got (mark ++ codes ">") ∷ []) 7
      ([], 7) (got (mark ++ codes ">") ∷ [], 7) ([], 7) b'<' b'>' (codes "a") [] [] reader (told 2)
      start (took (codes "<a>")) (omega arith) (omega arith) refl refl (ends refl)
      (feeds refl (feeds refl fed))

abbrev page : List Got
page = got (codes "<a>b") ∷ []

parse-true_example :
    (x : List Got) × (y : List Got × ℕ) × (some page ≡ some x)
    × (some [] ≡ some y.0)
    × Ends source.input (source.input.use_cache reader.use_cache (x, 7)) y
    × ((told 1).saw_error ≡ false)
unfolding parse handle sax_handler
parse-true_example =
    parse-true parser source 9 callbacks 5 (some page) (some []) 7 7 reader (told 1) start
      (took (codes "<a>b")) refl

abbrev lost : List Got
lost = got (codes "<a>b") ∷ failed ∷ []

-- What the parse of the stream that fails leaves.
abbrev reader_of : Outcome (Option (List Got) × ℕ × XmlReader ℕ × Context × Bool) → XmlReader ℕ
reader_of (done (d, h, r, c, b)) = r
reader_of _ = reader

abbrev after_lost : XmlReader ℕ
after_lost = reader_of (parse parser source 9 callbacks 5 (some lost) 7 reader start)

parse-false_example : (e : XmlError) × (after_lost.last_error ≡ some e)
unfolding parse handle sax_handler
parse-false_example =
    parse-false parser source 9 callbacks 5 (some lost) (some []) 7 7 reader after_lost start
      (took (codes "<a>b")) refl

-- What a preparse leaves.
abbrev preparsed : Outcome (ℕ × XmlReader ℕ × Bool) → XmlReader ℕ
preparsed (done (h, r, b)) = r
preparsed _ = reader

abbrev broken : Bytes
broken = codes "!<p>"

abbrev once : XmlReader ℕ
once = preparsed (preparse parser source 9 5 broken false 7 (record reader { doctype = html }))

abbrev twice : XmlReader ℕ
twice = preparsed (preparse parser source 9 5 broken true 8 once)

parse_html-IsUntouched_example :
    (parse_html parser source 9 5 broken 7 reader ≡ done (9, twice, false))
    × IsUntouched reader twice
unfolding preparse handle
parse_html-IsUntouched_example =
    parse_html-IsUntouched parser source 9 5 broken 7 8 9 reader once twice refl refl

handle-stopped_example :
    (c' : Context) × (handle parser 9
        (text (codes "b"))
        (record reader { parser_stopped = true })
        start
      ≡ done (record reader { parser_stopped = true }, c'))
handle-stopped_example =
    handle-stopped parser 9 (text (codes "b")) (record reader { parser_stopped = true }) start refl
      refl

new_stack-IsWhole : IsWhole new_stack
unfolding ParentsLive
new_stack-IsWhole = record { sound = new_stack-IsSound; parents = λ a p o e n. absurd (cc) }

end_element_handler-start_element_handler_example :
    (t : Namespaces) × IsWhole t
    × ((fuel : ℕ) (c : Context)
        → t.next ≤ fuel
        → (uri : Option Bytes) × (start_element_handler fuel
              (codes "a:x")
              (array_given (present declaring null))
              reader
              c
            ≡ done (started counts (codes "a:x") (present declaring null) t uri reader, c)))
    × ((fuel : ℕ) (r' : XmlReader ℕ) (c' : Context)
        → t.next ≤ fuel
        → r'.parser_stopped ≡ false
        → r'.content_handler ≡ some counts
        → r'.namespaces ≡ t
        → (uri : Option Bytes) × (end_element_handler fuel (codes "a:x") r' c'
            ≡ done (ended counts (codes "a:x") (record new_stack { next = t.next }) uri r', c')))
end_element_handler-start_element_handler_example =
    end_element_handler-start_element_handler counts (codes "a:x") (codes "a:x")
      (present declaring null) reader refl refl new_stack-IsWhole
