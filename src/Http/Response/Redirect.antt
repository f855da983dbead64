-- ===== src/Http/Response/Redirect.antt =====
-- Redirects in HttpStream::readBytes of src/HttpStream.cpp: to whom the credentials go, and what
-- becomes of the stream.
use libkolibre_xmlreader.Base.{
  ℕ, ◌≡◌, refl, ap, ◌∙◌, ◌≢◌, ◌⊎◌, true, false, Option, none, some, [], ◌∷◌, ◌++◌, if◌then◌else◌,
  Bytes, codes, bytes_eq, bytes_eq_refl, contains_byte, find_first_of, arith,
}
use libkolibre_xmlreader.Base.Outcome.{done, fault, ◌>>=◌}
use libkolibre_xmlreader.Cache.Object.{CacheObject, new_object, set_http_code}
use libkolibre_xmlreader.Cache.Zlib.{Zlib}
use libkolibre_xmlreader.Http.Response.{
  redirected, Auth, sent, refused, no_credentials, redirect_auth, apply_auth, handle_status, follow,
}
use libkolibre_xmlreader.Http.Stream.{
  HttpStream, Easy, null, freed, live, destroy_connection, reset_buffer, setup_connection, destroy,
  deleted, duplicate,
}
use libkolibre_xmlreader.Url.{url2hostname}
use libkolibre_xmlreader.Url.Parts.{url_of, EndsHost}
use libkolibre_xmlreader.Url.Authority.{
  IsPlain, full_url, authority_parts, anonymous_parts, url2hostname-at,
}

bytes_eq-nil : (s : Bytes) → s ≢ [] → bytes_eq s [] ≡ false
bytes_eq-nil [] h = absurd (h refl)
bytes_eq-nil (x ∷ s) h = refl

module _ {scheme user password host tail : Bytes} (p : IsPlain scheme user password host tail)
    (named : user ≢ []) (secret : password ≢ []) where
  redirect_auth-full_url :
      (new : Bytes)
      → redirect_auth (full_url scheme user password host tail) new
        ≡ (if bytes_eq host (url2hostname new) then sent (user ++ b':' ∷ password) else refused)
  unfolding redirect_auth
  redirect_auth-full_url new =
      let (h, u, w) = authority_parts p in
      rw (u, w, h, redirect_auth) (rw (bytes_eq-nil user named, bytes_eq-nil password secret) refl)

  -- At a redirect from a URL with a user and a password to a URL `scheme://host` with no `@` in it,
  -- both are sent on exactly when the two host names are the same.
  pub redirect_auth-same_host :
      (scheme' host' tail' : Bytes)
      → contains_byte b':' scheme' ≡ false
      → contains_byte b'@' (host' ++ tail') ≡ false
      → find_first_of (codes ":/") host' ≡ none
      → EndsHost tail'
      → redirect_auth (full_url scheme user password host tail) (url_of scheme' (host' ++ tail'))
        ≡ (if bytes_eq host host' then sent (user ++ b':' ∷ password) else refused)
  redirect_auth-same_host scheme' host' tail' s a h t =
      redirect_auth-full_url (url_of scheme' (host' ++ tail'))
      ∙ ap (λ n. if bytes_eq host n then sent (user ++ b':' ∷ password) else refused)
          (anonymous_parts scheme' host' tail' s a h t).0

  -- A redirect to any server whatever gets the user and the password, if the path of its URL holds
  -- `@` and then the old host name: that is what is compared.
  pub redirect_auth-spoofed :
      (scheme' server path : Bytes)
      → contains_byte b':' scheme' ≡ false
      → contains_byte b'@' (server ++ b'/' ∷ path) ≡ false
      → redirect_auth
          (full_url scheme user password host tail)
          (url_of scheme' ((server ++ b'/' ∷ path) ++ b'@' ∷ (host ++ tail)))
        ≡ sent (user ++ b':' ∷ password)
  redirect_auth-spoofed scheme' server path s a =
      redirect_auth-full_url _
      ∙ ap (λ n. if bytes_eq host n then sent (user ++ b':' ∷ password) else refused)
          (url2hostname-at scheme' (server ++ b'/' ∷ path) host tail s a p.host_plain p.tail_ends)
      ∙ ap (λ b. if b then sent (user ++ b':' ∷ password) else refused) (bytes_eq_refl host)

-- `case 301: case 302:`
abbrev pub IsRedirect : ℕ → Type 0
IsRedirect code = (code ≡ 301) ⊎ (code ≡ 302)

module _ {Z : Type 0} (z : Zlib Z) (get_cached : Bytes → Option (CacheObject Z)) (max_to_read : ℕ)
    (s : HttpStream Z) where
  -- A redirect while bytes of the response are held back frees their buffer twice.
  pub handle_status-double_free :
      (code room size : ℕ) (held new : Bytes)
      → IsRedirect code
      → s.buffer ≡ live room held
      → s.buffer_size ≢ 0
      → s.location ≡ live size new
      → handle_status z get_cached code max_to_read s ≡ fault
  unfolding handle_status destroy_connection reset_buffer
  handle_status-double_free code room size held new c b n l = ground arith

abbrev pub cached_or_new : {Z : Type 0} → Zlib Z → Bytes → Option (CacheObject Z) → CacheObject Z
cached_or_new z new none = new_object z new
cached_or_new z new (some o) = o

apply_auth-url : (a : Auth) (e : Easy) → (apply_auth a e).url ≡ e.url
apply_auth-url no_credentials e = refl
apply_auth-url refused e = refl
apply_auth-url (sent userpwd) e = refl

module _ {Z : Type 0} (z : Zlib Z) (max_to_read : ℕ) (new : Bytes) (s : HttpStream Z) where
  -- The stream once its buffers are given up.
  abbrev emptied : HttpStream Z
  emptied = record s {
    url = new;
    total_bytes_read = 0;
    total_bytes_write = 0;
    buffer = null;
    buffer_size = 0;
    buffer_head = 0;
    store_cache = false;
    stream_from_cache = false;
    location = freed;
  }

  -- The stream behind a redirect.
  abbrev started_over : Option (CacheObject Z) → HttpStream Z
  started_over o =
      let t = setup_connection z o emptied in
      record t {
        easy = apply_auth (redirect_auth s.url new) t.easy;
        bytes_read = 0;
        bytes_to_read = max_to_read;
        filled = [];
      }

  follow_lem :
      (get_cached : Bytes → Option (CacheObject Z)) (size : ℕ) (text : Bytes)
      → s.use_cache ≡ true
      → s.buffer ≡ null
      → s.buffer_size ≡ 0
      → s.location ≡ live size text
      → follow z get_cached new max_to_read s ≡ done (started_over (get_cached new))
  unfolding follow destroy_connection reset_buffer
  follow_lem get_cached size text on b n l = ground arith

  -- What a redirect leaves: curl is told of the new URL, the counters are zero, the caller's whole
  -- buffer is free again, nothing is to be stored or read from the cache yet, and the cached document
  -- is the one of the new URL, or a new one.
  abbrev pub StartsOver : Option (CacheObject Z) → HttpStream Z → Type 0
  StartsOver o t =
      ((t.url ≡ new) × (t.easy.url ≡ new))
      × ((t.total_bytes_read ≡ 0)
          × (t.bytes_read ≡ 0)
          × (t.bytes_to_read ≡ max_to_read)
          × (t.filled ≡ []))
      × ((t.store_cache ≡ false) × (t.stream_from_cache ≡ false) × (t.buffer ≡ null))
      × (t.cache ≡ cached_or_new z new o)

  started_over-StartsOver :
      (o : Option (CacheObject Z)) → s.use_cache ≡ true → StartsOver o (started_over o)
  unfolding setup_connection
  started_over-StartsOver none on = rw (on) (
    (refl, apply_auth-url (redirect_auth s.url new) _),
    (refl, refl, refl, refl),
    (refl, refl, refl),
    refl,
  )
  started_over-StartsOver (some o) on = rw (on) (
    (refl, apply_auth-url (redirect_auth s.url new) _),
    (refl, refl, refl, refl),
    (refl, refl, refl),
    refl,
  )

destroy-deleted :
    {Z : Type 0} (z : Zlib Z) (fuel : ℕ) (s : HttpStream Z)
    → s.buffer ≡ null
    → (text : Option Bytes) → s.location ≡ duplicate text
    → s.store_cache ≡ false
    → s.stream_from_cache ≡ false
    → s.delete_cache ≡ true
    → destroy z fuel s ≡ done (deleted s.cache)
unfolding destroy destroy_connection
destroy-deleted z fuel s b none l st fr d = ground arith
destroy-deleted z fuel s b (some text) l st fr d = ground arith

-- `cacheObject->setHttpCode (httpcode)`, while the cache is in use.
abbrev coded : {Z : Type 0} → HttpStream Z → ℕ → HttpStream Z
coded s code = record s { cache = record s.cache { http_code = code } }

module _ {Z : Type 0} (z : Zlib Z) (get_cached : Bytes → Option (CacheObject Z)) (max_to_read : ℕ)
    (s : HttpStream Z) (new : Bytes) where
  redirect_step :
      (code size : ℕ)
      → IsRedirect code
      → s.use_cache ≡ true
      → s.buffer ≡ null
      → s.buffer_size ≡ 0
      → s.location ≡ live size new
      → handle_status z get_cached code max_to_read s
        ≡ done (started_over z max_to_read new (coded s code) (get_cached new), redirected)
  unfolding handle_status set_http_code
  redirect_step code size c on b n l =
      ground (arith, follow_lem z max_to_read new (coded s code) get_cached size new on b n l)

  -- A redirect with no bytes held back, while the cache is in use, starts the stream over at the new
  -- URL: curl is told of it, the counters are zero, the caller's whole buffer is free again, nothing
  -- is to be stored or read from the cache yet, and the cached document is the one that the stream
  -- handler has for the new URL, or a new one.
  pub handle_status-redirected :
      (code size : ℕ)
      → IsRedirect code
      → s.use_cache ≡ true
      → s.buffer ≡ null
      → s.buffer_size ≡ 0
      → s.location ≡ live size new
      → (t : HttpStream Z) × (handle_status z get_cached code max_to_read s ≡ done (t, redirected))
        × StartsOver z max_to_read new s (get_cached new) t
  handle_status-redirected code size c on b n l = (
    _,
    redirect_step code size c on b n l,
    started_over-StartsOver z max_to_read new (coded s code) (get_cached new) on,
  )

  -- A stream that made a cached document of its own, and is redirected to a URL for which the stream
  -- handler has one, deletes the handler's document when it is destroyed right then.
  pub redirect-destroy :
      (code size fuel : ℕ) (o : CacheObject Z)
      → IsRedirect code
      → s.use_cache ≡ true
      → s.delete_cache ≡ true
      → s.buffer ≡ null
      → s.buffer_size ≡ 0
      → s.location ≡ live size new
      → get_cached new ≡ some o
      → (handle_status z get_cached code max_to_read s >>= λ (t, v). destroy z fuel t)
        ≡ done (deleted o)
  unfolding destroy setup_connection
  redirect-destroy code size fuel o c on own b n l e =
      ap (λ m. m >>= λ (t, v). destroy z fuel t) (redirect_step code size c on b n l)
      ∙ ap (λ p. destroy z fuel (started_over z max_to_read new (coded s code) p)) e
      ∙ kept_by_handler on own
    where
      kept_by_handler :
          s.use_cache ≡ true
          → s.delete_cache ≡ true
          → destroy z fuel (started_over z max_to_read new (coded s code) (some o))
            ≡ done (deleted o)
      kept_by_handler on' own' =
          rw (on', setup_connection) (destroy-deleted z fuel _ refl o.location refl refl refl own')
