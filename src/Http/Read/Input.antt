-- ===== src/Http/Read/Input.antt =====
-- An HttpStream as the other streams and the reader see it (src/HttpStream.h): its state is the stream
-- and what is left of curl's script.
use libkolibre_xmlreader.Base.{ℕ, List, take}
use libkolibre_xmlreader.Base.Outcome.{done, ◌>>=◌}
use libkolibre_xmlreader.Http.Read.{Perform, Env, ReadResult, returned, failed, raised, stream_read}
use libkolibre_xmlreader.Http.Stream.{HttpStream}
use libkolibre_xmlreader.Stream.{
  InputStream, Got, got, failed as read_failed, raised as read_raised,
}

module _ {Z : Type 0} where
  -- The bytes that readBytes put into the buffer, as many as it returns.
  abbrev pub got_from : ReadResult → HttpStream Z → Got
  got_from (returned n) s = got (take n s.filled)
  got_from failed s = read_failed
  got_from (raised e) s = read_raised e

  abbrev pub given : HttpStream Z × List Perform × ReadResult → (HttpStream Z × List Perform) × Got
  given (s, rest, r) = ((s, rest), got_from r s)

  abbrev pub cur_pos : HttpStream Z → ℕ
  cur_pos s = s.total_bytes_read

module _ {Z : Type 0} (env : Env Z) (fuel : ℕ) where
  abbrev pub http_input : InputStream (HttpStream Z × List Perform)
  http_input = record {
    read_bytes = λ n (s, script). stream_read env fuel script n s >>= λ x. done (given x);
    use_cache = λ b (s, script). (libkolibre_xmlreader.Http.Stream.use_cache s b, script);
    error_msg = λ (s, script). s.error_msg;
    error_code = λ (s, script). s.error_code;
  }
