-- ===== src/Tidy/Pieces.antt =====
-- The tidied text of src/TidyStream.cpp is read whole and in order.
use libkolibre_xmlreader.Base.{
  ==_refl, joined, take-nil, take-cons, ℕ, zero, suc, ◌+◌, ◌-◌, ◌≤◌, ◌<◌, ◌≡◌, refl, sym, subst, ap,
  ◌∙◌, Bool, true, false, Option, none, some, List, [], ◌∷◌, ◌++◌, ltb, if◌then◌else◌, ◌==◌, ◌⊎◌,
  inl, inr, Bytes, length, take, drop, arith, length-take, length-drop, take-append-drop, drop-drop,
}
use libkolibre_xmlreader.Base.Outcome.{
  Outcome, done, fault, ◌>>=◌, bind-eq-done, if-eq-done, done_inj,
}
use libkolibre_xmlreader.Cache.Object.{CacheObject, reset_state}
use libkolibre_xmlreader.Cache.Object.Write.{write_bytes}
use libkolibre_xmlreader.Cache.Object.Read.{read_bytes}
use libkolibre_xmlreader.Cache.Zlib.{Zlib}
use libkolibre_xmlreader.Handler.{DataStreamHandler, add_cache_object, get_cache_object, at}
use libkolibre_xmlreader.Tidy.State.{put, with_heap}
use libkolibre_xmlreader.Stream.{InputStream, got, Serves, ends, serves}
use libkolibre_xmlreader.Tidy.{
  Libtidy, TidyStream, tidy, read_tidy, read_mode, read_tidied, read_document, read_when, is_due,
  tidy_input, store_tidied, buffer_of, perform, gather, tidied_text, tidy_document, tidy_up,
  gathered, present, absent, cached,
}

-- A stream that was tidied, to this text, so many bytes of which were read.
abbrev pub tidied_at : {S : Type 0} → Bytes → TidyStream S → ℕ → TidyStream S
tidied_at out t k = record t { mode = tidy; tidied = true; outbuf = some out; total_bytes_read = k }

tidied_at_lem :
    {S : Type 0} (out : Bytes) (t : TidyStream S)
    → t.mode ≡ tidy
    → t.tidied ≡ true
    → t.outbuf ≡ some out
    → t.total_bytes_read ≡ 0
    → tidied_at out t 0 ≡ t
tidied_at_lem out t m d o k =
    ap (λ x. record t { mode = x; tidied = true; outbuf = some out; total_bytes_read = 0 }) (sym m)
    ∙ ap (λ x. record t { tidied = x; outbuf = some out; total_bytes_read = 0 }) (sym d)
    ∙ ap (λ x. record t { outbuf = x; total_bytes_read = 0 }) (sym o)
    ∙ ap (λ x. record t { total_bytes_read = x }) (sym k)

module _ {Z S T : Type 0} (z : Zlib Z) (lib : Libtidy T) (i : InputStream S)
    (close : S → DataStreamHandler Z → Outcome (DataStreamHandler Z)) (fuel fresh n : ℕ)
    (h : DataStreamHandler Z) (out : Bytes) where
  abbrev room : ℕ → ℕ
  room k = if ltb (length out - k) n then length out - k else n

  step :
      (t : TidyStream S) (k : ℕ)
      → (tidy_input z lib i close fuel fresh).read_bytes n (tidied_at out t k, h)
        ≡ done ((tidied_at out t (k + room k), h), got (take (room k) (drop k out)))
  unfolding read_tidy read_mode read_tidied
  step t k = refl

  Rest : TidyStream S → ℕ → Bytes → Type 0
  Rest t k rest =
      (pieces : List Bytes) × Serves (tidy_input z lib i close fuel fresh) n (tidied_at out t k, h)
        pieces (tidied_at out t (length out), h)
      × (joined pieces ≡ rest)

  pieces_from :
      (m : ℕ) (t : TidyStream S) (k : ℕ) (rest : Bytes)
      → drop k out ≡ rest
      → k + length rest ≡ length out
      → length rest ≤ m
      → 0 < n
      → Rest t k rest
  unfolding Rest
  pieces_from m t k [] e w le p = (
    [],
    subst
        (λ (j : ℕ).
          Serves (tidy_input z lib i close fuel fresh) n (tidied_at out t k, h) []
            (tidied_at out t j, h))
        {x = k + room k} (ground (arith, w))
        (ends (
          step t k
          ∙ ap (λ (b : Bytes). done ((tidied_at out t (k + room k), h), got b))
              (ap (take (room k)) e ∙ take-nil (room k)))),
    refl,
  )
  pieces_from zero t k (x ∷ xs) e w le p = absurd (omega arith)
  pieces_from (suc m) t k (x ∷ xs) e w le p =
      let r : ℕ = room k in
      let pos : 0 < r = ground (arith, w, p) in
      let small : r ≤ n = ground (arith) in
      let (pieces, served, joins) =
        pieces_from m t (k + r) (drop r (x ∷ xs)) (drop-drop k r (k + r) out refl ∙ ap (drop r) e)
          (ground (arith, length-drop r (x ∷ xs), w)) (ground (arith, length-drop r (x ∷ xs), pos))
          p in
      let (y, ys, q) = take-cons r x xs pos in
      (
        take r (x ∷ xs) ∷ pieces,
        subst
            (λ (b : Bytes).
              Serves (tidy_input z lib i close fuel fresh) n (tidied_at out t k, h) (b ∷ pieces)
                (tidied_at out t (length out), h))
            (sym q)
            (serves
              (step t k
                ∙ ap (λ (b : Bytes). done ((tidied_at out t (k + r), h), got b))
                    (ap (take r) e ∙ q))
              (omega (arith, ap length q, length-take r (x ∷ xs), small)) served),
        ap (λ (b : Bytes). take r (x ∷ xs) ++ b) joins ∙ take-append-drop r (x ∷ xs),
      )

module _ {Z S T : Type 0} (z : Zlib Z) (lib : Libtidy T) (i : InputStream S)
    (close : S → DataStreamHandler Z → Outcome (DataStreamHandler Z)) (fuel fresh : ℕ) where
  store_tidied-done :
      (a : ℕ) (o : CacheObject Z) (out : Bytes) (t : TidyStream S) (h : DataStreamHandler Z)
      (t' : TidyStream S) (h' : DataStreamHandler Z)
      → store_tidied z lib i close fuel a o out t h ≡ done (t', h')
      → t' ≡ record t { cache = some a; outbuf = some out }
  unfolding store_tidied
  store_tidied-done a o out t h t' h' e =
      let (w, _, e1) = bind-eq-done (write_bytes z fuel o (buffer_of out)) _ e in
      elim (if-eq-done (w.1 == length out) _ _ e1) [
        | inr e2 ↦ same t' h' e2
        | inl e2 ↦
            let (w2, _, e3) = bind-eq-done (write_bytes z fuel w.0 none) _ e2 in
            elim (if-eq-done t.use_cache _ _ e3) [
              | inr e4 ↦ same t' h' e4
              | inl e4 ↦
                  let (h2, _, e5) = bind-eq-done (add_cache_object t.url a _) _ e4 in same t' h' e5
            ]
      ]
    where
      same :
          {u : TidyStream S} {g : DataStreamHandler Z} (t' : TidyStream S)
          (h' : DataStreamHandler Z)
          → ◌≡◌ {A = Outcome (TidyStream S × DataStreamHandler Z)} (done (u, g)) (done (t', h'))
          → t' ≡ u
      same t' h' e =
          let q : ◌≡◌ {A = TidyStream S × DataStreamHandler Z} _ _ = done_inj e in
          ap (λ (x : TidyStream S × DataStreamHandler Z). x.0) (sym q)

  -- The cache has no document that counts as tidied, by what getCacheObject answered.
  abbrev pub IsUntidied : Option ℕ → DataStreamHandler Z → Type 0
  IsUntidied c h =
      (c ≡ none)
      ⊎ ((a : ℕ) × (o : CacheObject Z) × (c ≡ some a)
          × (at h.heap a ≡ done o)
          × (o.tidy_flag ≡ false))

  -- What tidy_up leaves: a stream that reads the document in the cache, or one with the tidied text.
  pub data Leaves (docbuf : Bytes) (c : Option ℕ) (t : TidyStream S) (h : DataStreamHandler Z)
      (t' : TidyStream S) (h' : DataStreamHandler Z) : Type 0 where
    from_document :
        (a : ℕ) (o : CacheObject Z)
        → c ≡ some a
        → at h.heap a ≡ done o
        → o.tidy_flag ≡ true
        → t' ≡ record t { mode = cached; cache = some a; outbuf = some [] }
        → h' ≡ with_heap h (put h.heap a (reset_state z o))
        → Leaves docbuf c t h t' h'
    from_text :
        (a : ℕ)
        → IsUntidied c h
        → t' ≡ record t { cache = some a; outbuf = some (tidied_text z lib i close docbuf) }
        → Leaves docbuf c t h t' h'

  tidy_document-Leaves :
      (a : ℕ) (o : CacheObject Z) (b : Bool) (docbuf : Bytes) (t : TidyStream S)
      (h : DataStreamHandler Z) (t' : TidyStream S) (h' : DataStreamHandler Z)
      → at h.heap a ≡ done o
      → o.tidy_flag ≡ b
      → tidy_document z lib i close fuel a (reset_state z o) b docbuf t h ≡ done (t', h')
      → Leaves docbuf (some a) t h t' h'
  unfolding tidy_document
  tidy_document-Leaves a o true docbuf t h t' h' there flag e =
      from_document a o refl there flag
        (ap (λ (x : TidyStream S × DataStreamHandler Z). x.0) (sym (done_inj e)))
        (ap (λ (x : TidyStream S × DataStreamHandler Z). x.1) (sym (done_inj e)))
  tidy_document-Leaves a o false docbuf t h t' h' there flag e =
      from_text a (inr (a, o, refl, there, flag))
        (store_tidied-done a (reset_state z o) _ t h t' h' e)

  tidy_up-Leaves :
      (c : Option ℕ) (docbuf : Bytes) (t : TidyStream S) (h : DataStreamHandler Z)
      (t' : TidyStream S) (h' : DataStreamHandler Z)
      → tidy_up z lib i close fuel fresh c docbuf t h ≡ done (t', h')
      → Leaves docbuf c t h t' h'
  unfolding tidy_up reset_state
  tidy_up-Leaves none docbuf t h t' h' e =
      from_text fresh (inl refl) (store_tidied-done fresh _ _ t h t' h' e)
  tidy_up-Leaves (some a) docbuf t h t' h' e =
      let (o, there, e') = bind-eq-done (at h.heap a) _ e in
      tidy_document-Leaves a o o.tidy_flag docbuf t h t' h' there refl e'

  -- What the next reads of a stream give, where getCacheObject answered `c` with the handler `h1`: what
  -- is left in the cached document, if it counts as tidied, and the tidied text otherwise.
  pub data Gives (n : ℕ) (docbuf : Bytes) (c : Option ℕ) (h1 : DataStreamHandler Z)
      (t : TidyStream S) (h : DataStreamHandler Z) : Type 0 where
    gives_document :
        (a : ℕ) (o : CacheObject Z)
        → c ≡ some a
        → at h1.heap a ≡ done o
        → o.tidy_flag ≡ true
        → read_tidy z lib i close fuel fresh n t h ≡ (
            read_bytes z fuel (reset_state z o) n >>= λ (x : CacheObject Z × Bytes). done (
              record t { total_bytes_read = t.total_bytes_read + length x.1 },
              with_heap h (put h.heap a x.0),
              got x.1,
            ))
        → Gives n docbuf c h1 t h
    gives_text :
        (pieces : List Bytes) (u : TidyStream S)
        → IsUntidied c h1
        → Serves (tidy_input z lib i close fuel fresh) n (t, h) pieces (u, h)
        → joined pieces ≡ tidied_text z lib i close docbuf
        → Gives n docbuf c h1 t h

  at-put : (h : ℕ → Option (CacheObject Z)) (a : ℕ) (o : CacheObject Z) → at (put h a o) a ≡ done o
  at-put h a o =
      ap (λ b. elim (if b then some o else h a) [ none ↦ fault | some x ↦ done x ]) (==_refl a)

  read_tidy-cached :
      (n a : ℕ) (t : TidyStream S) (h : DataStreamHandler Z) (o : CacheObject Z)
      → t.mode ≡ cached
      → t.cache ≡ some a
      → at h.heap a ≡ done o
      → read_tidy z lib i close fuel fresh n t h ≡ (
          read_bytes z fuel o n >>= λ (x : CacheObject Z × Bytes). done (
            record t { total_bytes_read = t.total_bytes_read + length x.1 },
            with_heap h (put h.heap a x.0),
            got x.1,
          ))
  unfolding read_tidy read_mode read_document
  read_tidy-cached n a t h o m c there =
      ap (λ x. read_when z lib i close (is_due x t.tidied) fuel fresh n t h) m
      ∙ ap (λ x. read_mode z lib i close x fuel n t h) m
      ∙ ap (λ x. read_document z lib i close fuel x n t h) c
      ∙ ap
          (λ w. w >>= λ o. read_bytes z fuel o n >>= λ (x : CacheObject Z × Bytes). done (
            record t { total_bytes_read = t.total_bytes_read + length x.1 },
            with_heap h (put h.heap a x.0),
            got x.1,
          ))
          there

  Leaves-Gives :
      (n : ℕ) (docbuf : Bytes) (c : Option ℕ) (h1 : DataStreamHandler Z) (t t1 t' : TidyStream S)
      (h : DataStreamHandler Z)
      → 0 < n
      → t.mode ≡ tidy
      → t.total_bytes_read ≡ 0
      → Leaves docbuf c t h1 t1 h
      → t' ≡ record t1 { tidied = true }
      → Gives n docbuf c h1 t' h
  unfolding Rest
  Leaves-Gives n docbuf c h1 t t1 t' h p m total (from_document a o ec there flag e eh) q =
      gives_document a o ec there flag (
        read_tidy-cached n a t' h (reset_state z o)
          (ap (λ (x : TidyStream S). x.mode) q ∙ ap (λ (x : TidyStream S). x.mode) e)
          (ap (λ (x : TidyStream S). x.cache) q ∙ ap (λ (x : TidyStream S). x.cache) e)
          (ap (λ (x : DataStreamHandler Z). at x.heap a) eh ∙ at-put h1.heap a (reset_state z o)))
  Leaves-Gives n docbuf c h1 t t1 t' h p m total (from_text a untidied e) q =
      let out : Bytes = tidied_text z lib i close docbuf in
      let (pieces, served, joins) =
        pieces_from z lib i close fuel fresh n h out (length out) t' 0 out refl (omega arith)
          (omega arith) p in
      let same : tidied_at out t' 0 ≡ t' =
        tidied_at_lem out t'
          (ap (λ (x : TidyStream S). x.mode) q ∙ ap (λ (x : TidyStream S). x.mode) e ∙ m)
          (ap (λ (x : TidyStream S). x.tidied) q)
          (ap (λ (x : TidyStream S). x.outbuf) q ∙ ap (λ (x : TidyStream S). x.outbuf) e)
          (ap (λ (x : TidyStream S). x.total_bytes_read) q
            ∙ ap (λ (x : TidyStream S). x.total_bytes_read) e
            ∙ total) in
      gives_text pieces (tidied_at out t' (length out)) untidied
        (subst
          (λ (x : TidyStream S).
            Serves (tidy_input z lib i close fuel fresh) n (x, h) pieces
              (tidied_at out t' (length out), h))
          same served)
        joins

  -- When Perform succeeds in TIDY mode, for a stream of which nothing was read, it has read the stream
  -- inside until that gave nothing or threw, and closed it. If getCacheObject then answers with a
  -- document that counts as tidied, the next read is one of this document, from its start. If it has
  -- none, or one that does not count as tidied, the reads that follow give, in pieces of at most `n`
  -- bytes, none of them empty, the whole tidied text and then nothing.
  pub perform-Gives :
      (n : ℕ) (s : S) (t : TidyStream S) (h : DataStreamHandler Z) (t' : TidyStream S)
      (h' : DataStreamHandler Z)
      → 0 < n
      → t.mode ≡ tidy
      → t.total_bytes_read ≡ 0
      → perform z lib i close fuel fresh (present s) t h ≡ done (t', h', true)
      → (s' : S) × (docbuf : Bytes) × (gather i fuel s [] ≡ done (s', some docbuf))
        × (h1 : DataStreamHandler Z) × (c : Option ℕ) × (close s' h ≡ done h1)
        × (get_cache_object t.url h1 ≡ done c)
        × Gives n docbuf c h1 t' h'
  unfolding perform
  perform-Gives n s t h t' h' p m total e =
      let (g, e0, e1) = bind-eq-done (gather i fuel s []) _ e in by_text g.0 g.1 e0 e1
    where
      by_text :
          (s' : S) (g : Option Bytes)
          → gather i fuel s [] ≡ done (s', g)
          → gathered z lib i close fuel fresh s' g t h ≡ done (t', h', true)
          → (s' : S) × (docbuf : Bytes) × (gather i fuel s [] ≡ done (s', some docbuf))
            × (h1 : DataStreamHandler Z) × (c : Option ℕ) × (close s' h ≡ done h1)
            × (get_cache_object t.url h1 ≡ done c)
            × Gives n docbuf c h1 t' h'
      by_text s' none e0 e1 =
          let (h1, _, e2) = bind-eq-done (close s' h) _ e1 in
          let q : false ≡ true =
            ap (λ (x : TidyStream S × DataStreamHandler Z × Bool). x.2) (done_inj e2) in
          absurd (cc)
      by_text s' (some docbuf) e0 e1 =
          let (h1, closed, e2) = bind-eq-done (close s' h) _ e1 in
          let (c, answered, e3) = bind-eq-done (get_cache_object t.url h1) _ e2 in
          let (w, e4, e5) =
            bind-eq-done
              (tidy_up z lib i close fuel fresh c docbuf (record t { inner = absent }) h1) _ e3 in
          (
            s',
            docbuf,
            e0,
            h1,
            c,
            closed,
            answered,
            Leaves-Gives n docbuf c h1 (record t { inner = absent }) w.0 t' h' p m total
                (subst (λ x. Leaves docbuf c (record t { inner = absent }) h1 w.0 x)
                  (ap (λ (x : TidyStream S × DataStreamHandler Z × Bool). x.1) (done_inj e5))
                  (tidy_up-Leaves c docbuf (record t { inner = absent }) h1 w.0 w.1 e4))
                (ap (λ (x : TidyStream S × DataStreamHandler Z × Bool). x.0) (sym (done_inj e5))),
          )
