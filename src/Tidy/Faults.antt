-- ===== src/Tidy/Faults.antt =====
-- What src/TidyStream.cpp does when the stream inside fails, and when the cache has a document that
-- counts as tidied.
use libkolibre_xmlreader.Base.{
  ℕ, ◌≡◌, refl, ap, ◌∙◌, Bool, true, false, none, some, [], if◌then◌else◌, codes, Bytes,
}
use libkolibre_xmlreader.Base.Outcome.{Outcome, done, fault, ◌>>=◌}
use libkolibre_xmlreader.Cache.Object.{CacheObject, reset_state}
use libkolibre_xmlreader.Cache.Zlib.{Zlib}
use libkolibre_xmlreader.Handler.{DataStreamHandler, at, get_cache_object}
use libkolibre_xmlreader.Stream.{InputStream, failed}
use libkolibre_xmlreader.Tidy.{
  Libtidy, TidyStream, Inner, tidy, cached, present, absent, deleted, gather, gathered, perform,
  read_tidy, read_when, is_due, read_performed, tidy_up, tidy_document, put, with_heap, new_tidy,
  destroy_tidy, passthrough, is_smil_at, rfind, destroy_mode, free_buffer,
}

module _ {Z S T : Type 0} (z : Zlib Z) (lib : Libtidy T) (i : InputStream S)
    (close : S → DataStreamHandler Z → Outcome (DataStreamHandler Z)) (fuel fresh : ℕ) where
  -- A read in TIDY mode of a stream that was not tidied yet.
  read_tidy-due :
      (n : ℕ) (t : TidyStream S) (h : DataStreamHandler Z) (p : Inner S)
      → t.mode ≡ tidy
      → t.tidied ≡ false
      → t.inner ≡ p
      → read_tidy z lib i close fuel fresh n t h
        ≡ (perform z lib i close fuel fresh p t h >>= λ r. read_performed z lib i close fuel n r)
  unfolding read_tidy read_when
  read_tidy-due n t h p m d e =
      ap (λ b. read_when z lib i close b fuel fresh n t h)
        (ap (λ x. is_due x t.tidied) m ∙ ap (is_due tidy) d)
      ∙ ap
          (λ q.
            perform z lib i close fuel fresh q t h >>= λ r. read_performed z lib i close fuel n r)
          e

  -- The stream inside fails before its end.
  abbrev pub broken : S → TidyStream S → TidyStream S
  broken s t = record t {
    error_msg = i.error_msg s;
    error_code = i.error_code s;
    inner = deleted;
    outbuf = some [];
  }

  -- When the stream inside fails before its end, a read in TIDY mode returns -1 and hands on the
  -- error of that stream, which is deleted, but not forgotten: the next read, which tries to tidy
  -- again, uses the deleted stream. The conditions are that the stream inside is there, that nothing
  -- was tidied yet, and that its destructor does not fail.
  pub read_tidy-read_tidy :
      (n m : ℕ) (s s' : S) (t : TidyStream S) (h h' : DataStreamHandler Z)
      → t.mode ≡ tidy
      → t.tidied ≡ false
      → t.inner ≡ present s
      → gather i fuel s [] ≡ done (s', none)
      → close s' h ≡ done h'
      → (read_tidy z lib i close fuel fresh n t h ≡ done (broken s' t, h', failed))
        × (read_tidy z lib i close fuel fresh m (broken s' t) h' ≡ fault)
  unfolding perform gathered
  read_tidy-read_tidy n m s s' t h h' mode due inner g c = (
    read_tidy-due n t h (present s) mode due inner
        ∙ ap (λ w. w >>= (λ r. read_performed z lib i close fuel n r)) fails,
    read_tidy-due m (broken s' t) h' deleted mode due refl,
  )
    where
      fails : perform z lib i close fuel fresh (present s) t h ≡ done (broken s' t, h', false)
      fails =
          ap (λ w. w >>= λ (u, x). gathered z lib i close fuel fresh u x t h) g
          ∙ ap (λ w. w >>= λ (k : DataStreamHandler Z). done (broken s' t, k, false)) c

  -- Whatever the stream inside gave up to its end, and however it was changed since: when the handler
  -- then has a document of the address with the tidy flag set, Perform drops what it read and turns to
  -- that document.
  pub perform-cached :
      (s s' : S) (docbuf : Bytes) (t : TidyStream S) (h h1 : DataStreamHandler Z) (a : ℕ)
      (o : CacheObject Z)
      → gather i fuel s [] ≡ done (s', some docbuf)
      → close s' h ≡ done h1
      → get_cache_object t.url h1 ≡ done (some a)
      → at h1.heap a ≡ done o
      → (reset_state z o).tidy_flag ≡ true
      → perform z lib i close fuel fresh (present s) t h
        ≡ done (
          record t {
            inner = absent;
            mode = cached;
            cache = some a;
            outbuf = some [];
            tidied = true;
          },
          with_heap h1 (put h1.heap a (reset_state z o)),
          true,
        )
  unfolding perform gathered tidy_up tidy_document
  perform-cached s s' docbuf t h h1 a o g c k e b =
      ap (λ w. w >>= λ (u, x). gathered z lib i close fuel fresh u x t h) g
      ∙ ap
          (λ w. w >>= λ (h1 : DataStreamHandler Z). get_cache_object t.url h1 >>= λ x.
            end (tidy_up z lib i close fuel fresh x docbuf t' h1))
          c
      ∙ ap (λ w. w >>= λ x. end (tidy_up z lib i close fuel fresh x docbuf t' h1)) k
      ∙ ap
          (λ w. end (
            w >>= λ o.
            tidy_document z lib i close fuel a (reset_state z o) (reset_state z o).tidy_flag docbuf
              t' h1))
          e
      ∙ ap (λ x. end (tidy_document z lib i close fuel a (reset_state z o) x docbuf t' h1)) b
    where
      t' : TidyStream S
      t' = record t { inner = absent }

      end :
          Outcome (TidyStream S × DataStreamHandler Z)
          → Outcome (TidyStream S × DataStreamHandler Z × Bool)
      end w = w >>= λ (u, h2). done (record u { tidied = true }, h2, true)

  destroy_tidy-due :
      (t : TidyStream S) (h : DataStreamHandler Z)
      → t.mode ≡ tidy
      → t.outbuf ≡ none
      → destroy_tidy z lib i close t h ≡ fault
  unfolding destroy_tidy
  destroy_tidy-due t h m o =
      ap (λ x. destroy_mode z lib i close x t h) m ∙ ap (λ o. free_buffer z lib i close o h) o

  -- A new stream for a document that is not a `.smil` file frees, when it is destroyed before anything
  -- was read, a buffer of libtidy that was never set up.
  pub destroy_tidy-new_tidy :
      (url : Bytes) (s : S) (h : DataStreamHandler Z)
      → is_smil_at (rfind (codes ".smil") url) url ≡ false
      → destroy_tidy z lib i close (new_tidy url s) h ≡ fault
  unfolding new_tidy
  destroy_tidy-new_tidy url s h e =
      destroy_tidy-due (new_tidy url s) h (ap (λ (b : Bool). if b then passthrough else tidy) e)
        refl
