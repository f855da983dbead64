-- ===== src/Cache/Object/RoundTrip.antt =====
-- What is written into a cached document by writeBytes comes back by readBytes (src/CacheObject.cpp), where
-- zlib decompresses what it compressed.
use libkolibre_xmlreader.Base.{ℕ, ◌<◌, ◌^◌, ◌≡◌, true, List, joined, Bytes, length}
use libkolibre_xmlreader.Base.Outcome.{done}
use libkolibre_xmlreader.Cache.Object.{CacheObject}
use libkolibre_xmlreader.Cache.Object.Pack.{
  deflater, IsIdle, Packs, write_parts, write_parts-IsPacked,
}
use libkolibre_xmlreader.Cache.Object.Inflate.{inflater, Inflated}
use libkolibre_xmlreader.Cache.Object.Unpack.{ReadsAll, Reading-full}
use libkolibre_xmlreader.Cache.Zlib.{Zlib}

-- What zlib documents: a stream that starts to compress has written nothing; from what it compressed
-- the text can be decompressed; and a call of `inflate` gives a part of it.
pub record IsLossless {Z : Type 0} (z : Zlib Z) (Left : Z → Bytes → Bytes → Type 0) : Type 0 where
  pub fresh : (s : Z) → z.total_out (deflater z s) ≡ 0
  pub packed :
      (fuel : ℕ) (s t : Z) (parts : List Bytes) (packed : Bytes)
      → Packs z fuel (deflater z s) parts packed
      → Left (inflater z t) packed (joined parts)
  pub inflated :
      (n : ℕ)
      → 0 < n
      → (s : Z) (input text : Bytes) → Left s input text
      → Inflated z Left n input text (z.inflate s input n)

-- A document that is written in parts and ended is read back whole, in order and to its end, however
-- many bytes are asked for at a time; the object may have held another document before, that was
-- written whole or read from. The conditions are that zlib is lossless and takes each part without an
-- error, that memory is not refused, that the sizes fit their types, and that the fuel is above the
-- number of compressed bytes. A read asks for less than 2 ^ 31 bytes and a part has less than 2 ^ 32;
-- what is compressed is, with a chunk, less than 2 ^ 31.
pub ReadsAll-write_parts :
    {Z : Type 0} (z : Zlib Z) (Left : Z → Bytes → Bytes → Type 0) (fuel n : ℕ) (parts : List Bytes)
    (packed : Bytes) (o : CacheObject Z)
    → IsLossless z Left
    → ((m : ℕ) → z.alloc m ≡ true)
    → 0 < n
    → n < 2 ^ 31
    → IsIdle o
    → ((s : Z) → Packs z fuel (deflater z s) parts packed)
    → length packed < fuel
    → (o' : CacheObject Z) × (write_parts z fuel parts o ≡ done o')
      × (u : CacheObject Z) × (pieces : List Bytes) × ReadsAll z fuel n o' pieces u
      × (joined pieces ≡ joined parts)
ReadsAll-write_parts z Left fuel n parts packed o law ok pos ask idle packs enough =
    let (o', run, v) = write_parts-IsPacked z fuel parts packed o ok law.fresh packs idle in
    let (u, pieces, rows, whole) =
      Reading-full z Left n pos (law.inflated n pos) fuel o' packed (joined parts) v.state v.block
        v.size v.small enough
        (law.packed fuel o'.stream o'.stream parts packed (packs o'.stream)) in
    (o', run, u, pieces, rows, whole)
