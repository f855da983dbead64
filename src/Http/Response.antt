-- ===== src/Http/Response.antt =====
-- The message by which curl reports the end of a transfer, as HttpStream::readBytes answers it.
pub mod Redirect
use libkolibre_xmlreader.Base.{
  ℕ, ◌+◌, ◌-◌, Bool, true, false, not, ◌&&◌, ◌||◌, Option, none, some, List, [], ◌∷◌, ◌++◌, ◌==◌,
  if◌then◌else◌, Bytes, codes, bytes_eq, c_str,
}
use libkolibre_xmlreader.Base.Outcome.{Outcome, done, fault, spins, ◌>>=◌}
use libkolibre_xmlreader.Cache.Object.{CacheObject, set_http_code}
use libkolibre_xmlreader.Cache.Zlib.{Zlib}
use libkolibre_xmlreader.Http.Error.{
  XmlError, xml_error, Domain, xml_from_parser, xml_from_io, xml_from_http, Code, xml_io_eacces,
  xml_io_enoent, xml_io_eio, xml_io_efault, status, curl, CurlCode, curle_ok,
  curle_remote_file_not_found, curle_unsupported_protocol, curle_couldnt_resolve_host,
  curle_couldnt_resolve_proxy, curle_couldnt_connect, curle_recv_error, curle_other, ErrorCode,
  no_error, not_found, access_denied, read_failed, connect_failed,
}
use libkolibre_xmlreader.Http.Status.{get_http_msg}
use libkolibre_xmlreader.Http.Stream.{
  HttpStream, Easy, Block, null, freed, live, setup_connection, destroy_connection, reset_buffer,
}
use libkolibre_xmlreader.Url.{url2hostname, url2username, url2password}

-- How a case of the switch ends: the loop goes on with this value of `tryAgain`, it goes on behind a
-- redirect, with handles running, or an error is thrown.
pub data Verdict : Type 0 where
  again : Bool → Verdict
  redirected : Verdict
  throws : XmlError → Verdict

-- What readBytes does with the credentials of the old URL at a redirect.
pub data Auth : Type 0 where
  no_credentials refused : Auth
  sent : Bytes → Auth

-- Credentials are sent to a host of the same name only.
unfoldable pub redirect_auth : Bytes → Bytes → Auth
redirect_auth old new =
    if not (bytes_eq (url2username old) []) && not (bytes_eq (url2password old) [])
    then (if bytes_eq (url2hostname old) (url2hostname new)
        then sent (url2username old ++ b':' ∷ url2password old)
        else refused)
    else no_credentials

abbrev pub apply_auth : Auth → Easy → Easy
apply_auth (sent userpwd) e = record e { userpwd = some userpwd }
apply_auth _ e = e

module _ {Z : Type 0} (z : Zlib Z) where
  -- An error that readBytes throws: the stream keeps its message and a code of its own.
  pub fail : HttpStream Z → ErrorCode → Domain → Code → Bytes → HttpStream Z × Verdict
  fail s kept domain code msg =
      (record s { error_msg = msg; error_code = kept }, throws (xml_error domain code msg))

  -- `if (USE_CACHE && bUseCache) cacheObject->setHttpCode(httpcode)`
  pub note_code : ℕ → HttpStream Z → HttpStream Z
  unfolding set_http_code
  note_code code s = if s.use_cache then record s { cache = set_http_code s.cache code } else s

  -- The redirect to `new`. The first argument stands for DataStreamHandler::getCacheObject; the
  -- last is the `maxToRead` of the call at hand.
  pub follow : (Bytes → Option (CacheObject Z)) → Bytes → ℕ → HttpStream Z → Outcome (HttpStream Z)
  unfolding destroy_connection reset_buffer setup_connection
  follow get_cached new max_to_read s = destroy_connection s >>= λ s1.
      reset_buffer (record s1 { url = new }) >>= λ s2.
      let s3 = setup_connection z (if s2.use_cache then get_cached new else none) s2 in
      done (record s3 {
        easy = apply_auth (redirect_auth s.url new) s3.easy;
        bytes_read = 0;
        bytes_to_read = max_to_read;
        filled = [];
      })

  -- `case 301: case 302:`
  pub redirect :
      (Bytes → Option (CacheObject Z))
      → ℕ
      → ℕ
      → Block
      → HttpStream Z
      → Outcome (HttpStream Z × Verdict)
  unfolding follow fail
  redirect get_cached code max_to_read null s =
      done (
        fail s connect_failed xml_from_http (status code)
          (codes "Got redirect but no new location"))
  redirect get_cached code max_to_read freed s = fault
  redirect get_cached code max_to_read (live size new) s =
      follow get_cached new max_to_read s >>= λ s'. done (s', redirected)

  -- `switch (httpcode)`
  unfoldable pub handle_status :
      (Bytes → Option (CacheObject Z)) → ℕ → ℕ → HttpStream Z → Outcome (HttpStream Z × Verdict)
  unfolding note_code redirect fail
  handle_status get_cached code max_to_read s =
      if code == 0 || code == 200
      then done (note_code code s, again false)
      else if code == 301 || code == 302
      then redirect get_cached code max_to_read s.location (note_code code s)
      else if code == 304
      then done (record s { stream_from_cache = true }, again false)
      else if code == 401 || (code == 403 || code == 407)
      then done (fail s access_denied xml_from_io xml_io_eacces (get_http_msg code))
      else if code == 400 || code == 404
      then done (fail s not_found xml_from_io xml_io_enoent (get_http_msg code))
      else done (fail s not_found xml_from_io xml_io_eio (get_http_msg code))

  -- `switch (msg->data.result)`. `strerror` stands for curl_easy_strerror.
  unfoldable pub handle_result :
      (CurlCode → Bytes)
      → (Bytes → Option (CacheObject Z))
      → CurlCode
      → ℕ
      → ℕ
      → HttpStream Z
      → Outcome (HttpStream Z × Verdict)
  unfolding handle_status fail
  handle_result strerror get_cached curle_ok code max_to_read s =
      handle_status get_cached code max_to_read s
  handle_result strerror get_cached curle_remote_file_not_found code max_to_read s =
      done (fail s not_found xml_from_io xml_io_enoent (strerror curle_remote_file_not_found))
  handle_result strerror get_cached curle_unsupported_protocol code max_to_read s =
      done (fail s connect_failed xml_from_io xml_io_efault (strerror curle_unsupported_protocol))
  handle_result strerror get_cached curle_couldnt_resolve_host code max_to_read s =
      done (fail s connect_failed xml_from_io xml_io_efault (strerror curle_couldnt_resolve_host))
  handle_result strerror get_cached curle_couldnt_resolve_proxy code max_to_read s =
      done (fail s connect_failed xml_from_io xml_io_efault (strerror curle_couldnt_resolve_proxy))
  handle_result strerror get_cached curle_couldnt_connect code max_to_read s =
      done (fail s connect_failed xml_from_io xml_io_efault (strerror curle_couldnt_connect))
  handle_result strerror get_cached curle_recv_error code max_to_read s =
      done (fail s read_failed xml_from_io xml_io_eio (strerror curle_recv_error))
  handle_result strerror get_cached (curle_other n) code max_to_read s =
      done (fail s read_failed xml_from_http (curl (curle_other n)) (strerror (curle_other n)))
