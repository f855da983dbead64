-- ===== src/Cache/Object/Read.antt =====
-- CacheObject::readBytes of src/CacheObject.cpp: decompressing a cached document.
use libkolibre_xmlreader.Base.{
  ℕ, zero, suc, ◌%◌, ◌^◌, true, false, not, ◌&&◌, Option, none, some, [], ◌==◌, Bytes, length, take,
}
use libkolibre_xmlreader.Base.Outcome.{Outcome, done, spins}
use libkolibre_xmlreader.Cache.Zlib.{Zlib, ZCode, z_need_dict}
use libkolibre_xmlreader.Cache.Object.{
  CacheState, empty, write, full, read, CacheObject, dictionary, is_fatal, stepped, reset_state,
}

module _ {Z : Type 0} (z : Zlib Z) where
  -- A call of `inflate` that asked for the dictionary gets it.
  unfoldable pub offer_dictionary : ZCode → Z → Z
  offer_dictionary z_need_dict s = z.inflate_set_dictionary s dictionary
  offer_dictionary _ s = s

  -- The loop of readBytes. Each round fills the caller's buffer from its start; the result is what
  -- the last round left there, or nothing after an error.
  unfoldable pub read_loop : ℕ → CacheObject Z → ℕ → Outcome (CacheObject Z × Bytes)
  unfolding stepped offer_dictionary is_fatal
  read_loop zero o bytes = spins
  read_loop (suc fuel) o bytes =
      let r = z.inflate o.stream o.next_in bytes in
      let o' = stepped (record r { stream = offer_dictionary r.code r.stream }) o in
      elim (is_fatal r.code) [
        | true ↦ done (o', [])
        | false ↦ elim (not (length r.output == bytes) && not (length o'.next_in == 0)) [
          | true ↦ read_loop fuel o' bytes
          | false ↦ done (o', r.output)
        ]
      ]

  unfoldable pub leave_write : CacheState → CacheObject Z → CacheObject Z
  unfolding reset_state
  leave_write write o = reset_state z o
  leave_write _ o = o

  -- `avail_in` has 32 bits.
  unfoldable pub init_inflate : CacheState → Bytes → CacheObject Z → CacheObject Z
  init_inflate full block o = record o {
    stream = z.inflate_set_dictionary (z.inflate_init o.stream) dictionary;
    state = read;
    next_in = take (o.buffer_size % 2 ^ 32) block;
  }
  init_inflate _ block o = o

  -- The state that the loop of readBytes starts from.
  unfoldable pub prepare_read : Bytes → CacheObject Z → CacheObject Z
  unfolding leave_write init_inflate
  prepare_read block o = let ready = leave_write o.state o in init_inflate ready.state block ready

  unfoldable pub read_in :
      CacheState → Option Bytes → ℕ → CacheObject Z → ℕ → Outcome (CacheObject Z × Bytes)
  unfolding prepare_read read_loop
  read_in empty block fuel o bytes = done (o, [])
  read_in _ none fuel o bytes = done (o, [])
  read_in _ (some block) fuel o bytes = read_loop fuel (prepare_read block o) bytes

  -- readBytes: the bytes that it has put into the caller's buffer, as many as it returns.
  unfoldable pub read_bytes : ℕ → CacheObject Z → ℕ → Outcome (CacheObject Z × Bytes)
  unfolding read_in
  read_bytes fuel o bytes = read_in o.state o.z_buffer fuel o bytes
