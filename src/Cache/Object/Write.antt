-- ===== src/Cache/Object/Write.antt =====
-- CacheObject::writeBytes of src/CacheObject.cpp: compressing a document into the cached object.
use libkolibre_xmlreader.Base.{
  ℕ, zero, suc, ◌+◌, ◌*◌, ◌%◌, ◌^◌, Bool, true, false, not, ◌&&◌, ◌||◌, Option, none, some, [], ltb,
  leb, ◌==◌, if◌then◌else◌, Bytes, length, take,
}
use libkolibre_xmlreader.Base.Outcome.{Outcome, done, fault, spins, ◌>>=◌}
use libkolibre_xmlreader.Cache.Zlib.{Zlib, ZStep, ZCode, z_ok, z_stream_end}
use libkolibre_xmlreader.Cache.Object.{
  CacheState, empty, write, full, read, CacheObject, chunk_size, dictionary, sub64, write_at,
  is_fatal, stepped, reset_state, reset_buffer,
}

-- `err == Z_OK || err == Z_STREAM_END`
unfoldable pub is_fine : ZCode → Bool
is_fine z_ok = true
is_fine z_stream_end = true
is_fine _ = false

unfoldable pub is_ok : ZCode → Bool
is_ok z_ok = true
is_ok _ = false

-- `avail_in = bytes`, where `avail_in` has 32 bits.
abbrev pub available : Bytes → Bytes
available buffer = take (length buffer % 2 ^ 32) buffer

module _ {Z : Type 0} (z : Zlib Z) where
  -- `realloc (zBuffer, n)`: the bytes up to `n` stay.
  unfoldable pub realloc : ℕ → Option Bytes → Option Bytes
  realloc n none = if z.alloc n then some [] else none
  realloc n (some block) = if z.alloc n then some (take n block) else none

  unfoldable pub enlarged : CacheObject Z → CacheObject Z
  unfolding realloc
  enlarged o =
      let count = o.alloc_count + 1 in
      let size = count * chunk_size in
      record o {
        alloc_count = count;
        z_buffer = realloc size o.z_buffer;
        buffer_size = if z.alloc size then size else 0;
      }

  -- The body of the loop. `zBufferAllocCount * Z_CHUNK_SIZE` is a product of `int`, which has no
  -- defined value from 2 ^ 31 on.
  unfoldable pub grown : CacheObject Z → Outcome (CacheObject Z)
  unfolding enlarged
  grown o = if ltb ((o.alloc_count + 1) * chunk_size) (2 ^ 31) then done (enlarged o) else fault

  -- `while (zBufferSize < c_stream.total_out)`
  unfoldable pub grow : ℕ → ℕ → CacheObject Z → Outcome (CacheObject Z)
  unfolding grown
  grow zero total o = spins
  grow (suc fuel) total o = elim (ltb o.buffer_size total) [
    | true ↦ grown o >>= grow fuel total
    | false ↦ done o
  ]

  -- memcpy (zBuffer + zBufferPos, c_stream_buffer, compressed)
  unfoldable pub copy_in : Option Bytes → Bytes → CacheObject Z → Outcome (CacheObject Z)
  unfolding write_at
  copy_in none output o = fault
  copy_in (some block) output o =
      if leb (o.buffer_pos + length output) o.buffer_size
      then done (record o {
        z_buffer = some (write_at o.buffer_pos output block);
        buffer_pos = o.buffer_pos + length output;
      })
      else fault

  -- What follows the growth of the buffer; the flag tells to go on.
  unfoldable pub store_output : ℕ → Bytes → CacheObject Z → Outcome (CacheObject Z × Bool)
  unfolding copy_in
  store_output total output o =
      if not (length output == 0) && leb (length output) (sub64 o.buffer_size o.buffer_pos)
      then (copy_in o.z_buffer output o >>= λ o'. done (o', true))
      else if ltb o.buffer_size total
      then done (o, false)
      else done (o, true)

  -- The body of the loop, behind the call.
  unfoldable pub handle_output : ℕ → ZStep Z → CacheObject Z → Outcome (CacheObject Z × Bool)
  unfolding is_fatal is_fine grow store_output
  handle_output fuel r o =
      if is_fine r.code
      then (grow fuel (z.total_out r.stream) o >>= λ o'.
          store_output (z.total_out r.stream) r.output o')
      else done (o, not (is_fatal r.code))

  -- The loop of writeBytes; the flag of the result tells that it ended by its condition.
  unfoldable pub write_loop : ℕ → Bool → CacheObject Z → Outcome (CacheObject Z × Bool)
  unfolding handle_output stepped is_ok
  write_loop zero flush o = spins
  write_loop (suc fuel) flush o =
      let r = z.deflate o.stream flush o.next_in chunk_size in
      handle_output fuel r (stepped r o) >>= λ (o', going).
      elim (going
        && (not (length o'.next_in == 0) || (is_ok r.code && length r.output == chunk_size))) [
          | true ↦ write_loop fuel flush o'
          | false ↦ done (o', going)
        ]

  pub start_over : CacheState → CacheObject Z → CacheObject Z
  unfolding reset_state reset_buffer
  start_over read o = reset_buffer (reset_state z o)
  start_over full o = reset_buffer (reset_state z o)
  start_over _ o = o

  pub init_deflate : CacheState → CacheObject Z → CacheObject Z
  init_deflate empty o = record o {
    stream = z.deflate_set_dictionary (z.deflate_init o.stream) dictionary;
    state = write;
  }
  init_deflate _ o = o

  -- The state that writeBytes starts from.
  unfoldable pub prepare_write : CacheObject Z → CacheObject Z
  unfolding start_over init_deflate
  prepare_write o = let cleared = start_over o.state o in init_deflate cleared.state cleared

  -- Behind the loop, when it was `deflate`'s last call.
  unfoldable pub finish_write : CacheObject Z → CacheObject Z
  unfolding realloc
  finish_write o = record o {
    buffer_size = o.buffer_pos;
    z_buffer = realloc o.buffer_pos o.z_buffer;
    state = full;
  }

  -- writeBytes; `none` is the call with NULL and 0, which ends the compression. The result is the
  -- number that it returns.
  unfoldable pub write_bytes : ℕ → CacheObject Z → Option Bytes → Outcome (CacheObject Z × ℕ)
  unfolding prepare_write write_loop finish_write
  write_bytes fuel o none =
      write_loop fuel true (record (prepare_write o) { next_in = [] }) >>= λ (o', whole).
      done (if whole then finish_write o' else o', 0)
  write_bytes fuel o (some buffer) =
      write_loop fuel false (record (prepare_write o) { next_in = available buffer })
      >>= λ (o', whole). done (o', if whole then length buffer else 0)
