-- ===== src/Tests/Streams.antt =====
-- Runs of writeCallback and readBytes of src/HttpStream.cpp at concrete inputs.
use libkolibre_xmlreader.Base.{
  ℕ, ◌≡◌, refl, inl, inr, Option, none, some, [], ◌∷◌, ◌++◌, if◌then◌else◌, Bytes, codes, bytes_eq,
  arith,
}
use libkolibre_xmlreader.Base.Outcome.{done, fault, ◌>>=◌}
use libkolibre_xmlreader.Cache.Object.{CacheObject, new_object}
use libkolibre_xmlreader.Cache.Object.Write.{write_bytes}
use libkolibre_xmlreader.Url.Parts.{url_of}
use libkolibre_xmlreader.Http.Stream.{HttpStream, Block, null, live, new_stream, destroy, deleted}
use libkolibre_xmlreader.Http.Transfer.{write_callback, serve_buffered}
use libkolibre_xmlreader.Http.Transfer.Holding.{Holds}
use libkolibre_xmlreader.Http.Transfer.Fifo.{
  Delivers, write_callback-Delivers, serve_buffered_overlap,
}
use libkolibre_xmlreader.Http.Response.{redirected, sent, refused, redirect_auth, handle_status}
use libkolibre_xmlreader.Http.Response.Redirect.{
  redirect_auth-same_host, redirect_auth-spoofed, handle_status-double_free,
  handle_status-redirected, redirect-destroy, StartsOver,
}
use libkolibre_xmlreader.Tests.{plain, plain-alloc, fresh, home, home-IsPlain}

-- A stream that holds back three bytes while its caller asks for `room`.
abbrev pub holding_abc : ℕ → HttpStream ℕ
holding_abc room = record fresh {
  buffer = live 3 (codes "abc");
  buffer_size = 3;
  buffer_head = 3;
  bytes_to_read = room;
}

pub holding_abc-Holds : (room : ℕ) → Holds (holding_abc room) (codes "abc")
holding_abc-Holds room = record {
  block = (refl, omega arith, omega arith);
  size = refl;
  head = refl;
}

write_callback-Delivers_example :
    (t : HttpStream ℕ) × (rest : Bytes) × (write_callback plain 5 (codes "xyz") (holding_abc 0)
      ≡ done (t, 3))
    × Delivers (holding_abc 0) (codes "abc") (codes "xyz") t rest
unfolding write_bytes new_stream new_object
write_callback-Delivers_example =
    write_callback-Delivers plain 5 (codes "xyz") (holding_abc 0) plain-alloc refl
      (holding_abc-Holds 0) (inr refl)

serve_buffered_overlap_example : serve_buffered plain (holding_abc 1) ≡ fault
serve_buffered_overlap_example =
    serve_buffered_overlap plain (holding_abc 1) (codes "abc") (holding_abc-Holds 1) (omega arith)

redirect_auth-same_host_example :
    redirect_auth home (url_of (codes "http") (codes "evil.org" ++ codes "/b")) ≡ (
      if bytes_eq (codes "lib.org") (codes "evil.org")
      then sent (codes "ann" ++ b':' ∷ codes "key")
      else refused)
redirect_auth-same_host_example =
    redirect_auth-same_host home-IsPlain (λ e. cc) (λ e. cc) (codes "http") (codes "evil.org")
      (codes "/b") refl refl refl refl

redirect_auth-spoofed_example :
    redirect_auth home (
      url_of
        (codes "http")
        ((codes "evil.org" ++ b'/' ∷ []) ++ b'@' ∷ (codes "lib.org" ++ codes "/a")))
    ≡ sent (codes "ann" ++ b':' ∷ codes "key")
redirect_auth-spoofed_example =
    redirect_auth-spoofed home-IsPlain (λ e. cc) (λ e. cc) (codes "http") (codes "evil.org") [] refl
      refl

abbrev moved : Block → HttpStream ℕ
moved held = record fresh { buffer = held; location = live 9 (codes "http://b") }

abbrev nothing_cached : Bytes → Option (CacheObject ℕ)
nothing_cached url = none

abbrev one_cached : Bytes → Option (CacheObject ℕ)
one_cached url = some (new_object plain url)

abbrev part_held : HttpStream ℕ
part_held = record (moved (live 3 (codes "abc"))) { buffer_size = 3 }

handle_status-double_free_example : handle_status plain nothing_cached 302 8 part_held ≡ fault
handle_status-double_free_example =
    handle_status-double_free plain nothing_cached 8 part_held 302 3 9 (codes "abc")
      (codes "http://b") (inr refl) refl (λ e. omega arith) refl

handle_status-redirected_example :
    (t : HttpStream ℕ) × (handle_status plain nothing_cached 301 8 (moved null)
      ≡ done (t, redirected))
    × StartsOver plain 8 (codes "http://b") (moved null) none t
unfolding new_stream
handle_status-redirected_example =
    handle_status-redirected plain nothing_cached 8 (moved null) (codes "http://b") 301 9 (inl refl)
      refl refl refl refl

redirect-destroy_example :
    (handle_status plain one_cached 301 8 (moved null) >>= λ (t, v). destroy plain 5 t)
    ≡ done (deleted (new_object plain (codes "http://b")))
unfolding new_stream
redirect-destroy_example =
    redirect-destroy plain one_cached 8 (moved null) (codes "http://b") 301 9 5
      (new_object plain (codes "http://b")) (inl refl) refl refl refl refl refl refl
