-- ===== src/Http/Transfer.antt =====
-- HttpStream::writeCallback, by which curl hands over received bytes, and the part of readBytes that
-- serves buffered bytes first. Bytes that the caller has no room for stay in the holding buffer.
pub mod Holding
pub mod Fifo
use libkolibre_xmlreader.Base.{
  ℕ, zero, suc, ◌+◌, ◌-◌, Bool, true, false, not, ◌&&◌, ◌||◌, Option, none, some, List, [], ◌∷◌,
  ◌++◌, ltb, leb, ◌==◌, if◌then◌else◌, Bytes, length, take, drop,
}
use libkolibre_xmlreader.Base.Outcome.{Outcome, done, fault, spins, ◌>>=◌}
use libkolibre_xmlreader.Cache.Object.{CacheObject, write_at, sub64}
use libkolibre_xmlreader.Cache.Object.Write.{write_bytes}
use libkolibre_xmlreader.Cache.Zlib.{Zlib}
use libkolibre_xmlreader.Http.Stream.{HttpStream, Block, null, freed, live, free}

-- `(a > b) ? b : a`
abbrev pub at_most : ℕ → ℕ → ℕ
at_most a b = if ltb b a then b else a

-- memcpy (block + head, rest, n). Nothing is written where `n` is 0.
pub copy_to_block : Block → ℕ → Bytes → ℕ → Outcome Block
unfolding write_at
copy_to_block (live size content) head rest n =
    if leb n (length rest) && leb (head + n) size
    then done (live size (write_at head (take n rest) content))
    else fault
copy_to_block b head rest n = if n == 0 then done b else fault

module _ {Z : Type 0} where
  -- The bytes that fit into the caller's buffer.
  unfoldable pub take_in : Bytes → HttpStream Z → HttpStream Z
  take_in received s =
      let consume = at_most (length received) s.bytes_to_read in
      record s {
        filled = s.filled ++ take consume received;
        bytes_read = s.bytes_read + consume;
        total_bytes_read = s.total_bytes_read + consume;
        bytes_to_read = s.bytes_to_read - consume;
      }

-- memcpy (block, block + n, m), where the two ranges do not overlap.
moved : ℕ → Block → Outcome Block
moved n (live size content) = done (live size (drop n content))
moved n b = fault

module _ {Z : Type 0} (z : Zlib Z) where
  -- `malloc (n)`
  new_block : ℕ → Block
  new_block n = if z.alloc n then live n [] else null

  -- `realloc (b, n)`
  resize_block : Block → ℕ → Outcome Block
  unfolding new_block
  resize_block null n = done (new_block n)
  resize_block freed n = fault
  resize_block (live size content) n = done (if z.alloc n then live n (take n content) else null)

  -- The bytes behind those, of which `consume` were taken in; the number is what is copied here.
  first_block : Bytes → ℕ → HttpStream Z → Outcome (HttpStream Z × ℕ)
  unfolding new_block
  first_block rest consume s =
      let cnt = length rest in
      if z.alloc cnt
      then done (
        record s { buffer = live cnt []; buffer_size = s.buffer_size + cnt; buffer_head = 0 },
        cnt,
      )
      else done (record s { buffer = null }, consume)

  more_room : Bytes → ℕ → HttpStream Z → Outcome (HttpStream Z × ℕ)
  unfolding resize_block
  more_room rest consume s =
      let cnt = length rest in
      resize_block s.buffer (s.buffer_size + cnt + 1) >>= λ b. done (
        if z.alloc (s.buffer_size + cnt + 1)
        then (record s { buffer = b; buffer_size = s.buffer_size + cnt }, cnt)
        else (record s { buffer = b }, consume))

  pub hold_back : Bytes → ℕ → HttpStream Z → Outcome (HttpStream Z × ℕ)
  unfolding first_block more_room copy_to_block
  hold_back [] consume s = done (s, consume)
  hold_back (x ∷ rest) consume s =
      (if s.buffer_size == 0
        then first_block (x ∷ rest) consume s
        else more_room (x ∷ rest) consume s)
      >>= λ (s', n). copy_to_block s'.buffer s'.buffer_head (x ∷ rest) n >>= λ b.
          done (record s' { buffer = b; buffer_head = s'.buffer_head + n }, consume + n)

  -- `if (USE_CACHE && bUseCache && bStoreCache)`
  pub cache_received : ℕ → Bytes → HttpStream Z → Outcome (HttpStream Z)
  cache_received fuel received s =
      if s.use_cache && s.store_cache
      then (write_bytes z fuel s.cache (some received) >>= λ (c, n). done (record s { cache = c }))
      else done s

  -- writeCallback; the number is what it returns to curl.
  unfoldable pub write_callback : ℕ → Bytes → HttpStream Z → Outcome (HttpStream Z × ℕ)
  unfolding take_in cache_received hold_back
  write_callback fuel received s =
      let consume = at_most (length received) s.bytes_to_read in
      cache_received fuel received (take_in received s) >>= λ s'.
      hold_back (drop consume received) consume s'

  -- The buffer after its first `n` bytes, fewer than it holds, were served: memcpy (fBuffer, fBuffer
  -- + n, fBufferSize - n), which is undefined where the two ranges overlap, and realloc.
  pub move_down : ℕ → HttpStream Z → Outcome (HttpStream Z)
  unfolding resize_block moved
  move_down n s =
      let size = s.buffer_size - n in
      if ltb n size
      then fault
      else (moved n s.buffer >>= λ b. resize_block b size >>= λ b'. done (record s {
        total_bytes_write = s.total_bytes_write + n;
        buffer = b';
        buffer_size = if z.alloc size then size else 0;
        buffer_head = sub64 s.buffer_head n;
      }))

  -- memcpy (fWritePtr, fBuffer, n)
  pub copy_from_block : Block → ℕ → Outcome Bytes
  copy_from_block (live size content) n = if leb n size then done (take n content) else fault
  copy_from_block b n = fault

  -- One round of the loop of readBytes that finds buffered bytes.
  unfoldable pub serve_buffered : HttpStream Z → Outcome (HttpStream Z)
  unfolding copy_from_block move_down free
  serve_buffered s =
      let n = at_most s.buffer_size s.bytes_to_read in
      copy_from_block s.buffer n >>= λ bytes.
      let s' = record s {
        filled = s.filled ++ bytes;
        bytes_read = s.bytes_read + n;
        total_bytes_read = s.total_bytes_read + n;
        bytes_to_read = s.bytes_to_read - n;
      } in
      if ltb 0 (s.buffer_size - n)
      then move_down n s'
      else (free s.buffer >>= λ _.
          done (record s' { buffer = null; buffer_size = 0; buffer_head = 0 }))
