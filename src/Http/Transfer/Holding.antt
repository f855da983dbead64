-- ===== src/Http/Transfer/Holding.antt =====
-- The holding buffer of src/HttpStream.cpp: which bytes it stands for, and what writeCallback and
-- readBytes do to them.
use libkolibre_xmlreader.Base.{
  ℕ, ◌+◌, ◌-◌, ◌*◌, ◌^◌, ◌≤◌, ◌<◌, ◌≡◌, refl, ap, true, [], ◌∷◌, ◌++◌, Bytes, length, take, drop,
  arith, append-nil, take-append, take-all, length-append, length-drop,
}
use libkolibre_xmlreader.Base.Outcome.{done, fault}
use libkolibre_xmlreader.Cache.Object.{write_at, zeros}
use libkolibre_xmlreader.Cache.Zlib.{Zlib}
use libkolibre_xmlreader.Http.Stream.{HttpStream, Block, null, freed, live}
use libkolibre_xmlreader.Http.Transfer.{copy_to_block, hold_back, serve_buffered}

-- The bytes that a block stands for, when it holds nothing else.
abbrev pub BlockHolds : Block → Bytes → Type 0
BlockHolds null held = held ≡ []
BlockHolds freed held = ⊥
BlockHolds (live size content) held = (content ≡ held) × (length held ≤ size) × (0 < length held)

-- The stream holds back these bytes.
pub record Holds {Z : Type 0} (s : HttpStream Z) (held : Bytes) : Type 0 where
  pub block : BlockHolds s.buffer held
  pub size : s.buffer_size ≡ length held
  pub head : s.buffer_head ≡ length held

-- The stream with another holding buffer.
abbrev pub with_held : {Z : Type 0} → HttpStream Z → ℕ → Bytes → HttpStream Z
with_held s room held = record s {
  buffer = live room held;
  buffer_size = length held;
  buffer_head = length held;
}

write_at-end :
    (content output : Bytes) → write_at (length content) output content ≡ content ++ output
unfolding write_at
write_at-end content output = ap (λ b. b ++ output) (take-append content (zeros (length content)))

copy_to_block-end :
    (room : ℕ) (content rest : Bytes)
    → length content + length rest ≤ room
    → copy_to_block (live room content) (length content) rest (length rest)
      ≡ done (live room (content ++ rest))
unfolding copy_to_block
copy_to_block-end room content rest h =
    ground (arith, take-all (length rest) rest, write_at-end content rest)

module _ {Z : Type 0} (z : Zlib Z) (alloc_ok : (n : ℕ) → z.alloc n ≡ true) where
  hold_back-first :
      (x : ℕ) (rest : Bytes) (consume : ℕ) (s : HttpStream Z)
      → s.buffer_size ≡ 0
      → hold_back z (x ∷ rest) consume s
        ≡ done (with_held s (length (x ∷ rest)) (x ∷ rest), consume + length (x ∷ rest))
  unfolding hold_back
  hold_back-first x rest consume s e =
      ground
        (arith, alloc_ok (length (x ∷ rest)), copy_to_block-end (length (x ∷ rest)) [] (x ∷ rest))

  hold_back-more :
      (x : ℕ) (rest : Bytes) (consume room : ℕ) (held : Bytes) (s : HttpStream Z)
      → s.buffer ≡ live room held
      → s.buffer_size ≡ length held
      → s.buffer_head ≡ length held
      → 0 < length held
      → hold_back z (x ∷ rest) consume s
        ≡ done (
          record s {
            buffer = live (length held + length (x ∷ rest) + 1) (held ++ x ∷ rest);
            buffer_size = length held + length (x ∷ rest);
            buffer_head = length held + length (x ∷ rest);
          },
          consume + length (x ∷ rest),
        )
  unfolding hold_back
  hold_back-more x rest consume room held s b n h p = ground (
    arith,
    alloc_ok (length held + length (x ∷ rest) + 1),
    take-all (length held + length (x ∷ rest) + 1) held,
    copy_to_block-end (length held + length (x ∷ rest) + 1) held (x ∷ rest),
  )

-- The stream with what another one holds back.
abbrev pub holding : {Z : Type 0} → HttpStream Z → HttpStream Z → HttpStream Z
holding s t = record s {
  buffer = t.buffer;
  buffer_size = t.buffer_size;
  buffer_head = t.buffer_head;
}

pub BlockHolds-live :
    (b : Block) (y : ℕ) (ys : Bytes)
    → BlockHolds b (y ∷ ys)
    → (room : ℕ) × (b ≡ live room (y ∷ ys)) × (length (y ∷ ys) ≤ room)
BlockHolds-live null y ys h = cc
BlockHolds-live freed y ys h = absurd h
BlockHolds-live (live room content) y ys h = (room, ap (live room) h.0, h.1)

module _ {Z : Type 0} (z : Zlib Z) (alloc_ok : (n : ℕ) → z.alloc n ≡ true) where
  -- What is held back goes behind what is held already, and all of it counts as taken.
  pub hold_back-Holds :
      (rest : Bytes) (consume : ℕ) (s : HttpStream Z) (held : Bytes)
      → Holds s held
      → (s' : HttpStream Z) × (hold_back z rest consume s ≡ done (s', consume + length rest))
        × Holds s' (held ++ rest)
        × (s' ≡ holding s s')
  unfolding hold_back
  hold_back-Holds [] consume s held v = (s, ground arith, rw append-nil v, refl)
  hold_back-Holds (x ∷ rest) consume s [] v = (
    with_held s (length (x ∷ rest)) (x ∷ rest),
    hold_back-first z alloc_ok x rest consume s v.size,
    record { block = (refl, omega arith, omega arith); size = refl; head = refl },
    refl,
  )
  hold_back-Holds (x ∷ rest) consume s (y ∷ ys) v =
      let (room, e, h) = BlockHolds-live s.buffer y ys v.block in
      (
        _,
        hold_back-more z alloc_ok x rest consume room (y ∷ ys) s e v.size v.head (omega arith),
        record {
          block = (refl, omega (arith, length-append (y ∷ ys) (x ∷ rest)), omega arith);
          size = omega (arith, length-append (y ∷ ys) (x ∷ rest));
          head = omega (arith, length-append (y ∷ ys) (x ∷ rest));
        },
        refl,
      )

-- The stream once its caller got the first `n` of the bytes that it holds.
abbrev pub handed_over : {Z : Type 0} → HttpStream Z → ℕ → Bytes → HttpStream Z
handed_over s n held = record s {
  filled = s.filled ++ take n held;
  bytes_read = s.bytes_read + n;
  total_bytes_read = s.total_bytes_read + n;
  bytes_to_read = s.bytes_to_read - n;
}

module _ {Z : Type 0} (z : Zlib Z) (s : HttpStream Z) where
  -- All that is held is handed over.
  pub serve_buffered-all :
      (room : ℕ) (held : Bytes)
      → s.buffer ≡ live room held
      → s.buffer_size ≡ length held
      → length held ≤ room
      → length held ≤ s.bytes_to_read
      → serve_buffered z s
        ≡ done (record (handed_over s (length held) held) {
          buffer = null;
          buffer_size = 0;
          buffer_head = 0;
        })
  unfolding serve_buffered
  serve_buffered-all room held b e h r = ground arith

  -- More is held than is asked for.
  pub serve_buffered-some :
      (room : ℕ) (held : Bytes)
      → s.buffer ≡ live room held
      → s.buffer_size ≡ length held
      → s.buffer_head ≡ length held
      → length held ≤ room
      → length held < 2 ^ 64
      → s.bytes_to_read < length held
      → length held ≤ 2 * s.bytes_to_read
      → ((n : ℕ) → z.alloc n ≡ true)
      → serve_buffered z s
        ≡ done (record (handed_over s s.bytes_to_read held) {
          total_bytes_write = s.total_bytes_write + s.bytes_to_read;
          buffer = live (length held - s.bytes_to_read) (drop s.bytes_to_read held);
          buffer_size = length held - s.bytes_to_read;
          buffer_head = length held - s.bytes_to_read;
        })
  unfolding serve_buffered
  serve_buffered-some room held b e hd h w lt le ok = ground (
    arith,
    ok (length held - s.bytes_to_read),
    take-all (length held - s.bytes_to_read) (drop s.bytes_to_read held),
    length-drop s.bytes_to_read held,
  )

  -- Less than half of what is held is asked for: the rest is moved onto itself.
  pub serve_buffered-overlap :
      (room : ℕ) (held : Bytes)
      → s.buffer ≡ live room held
      → s.buffer_size ≡ length held
      → length held ≤ room
      → 2 * s.bytes_to_read < length held
      → serve_buffered z s ≡ fault
  unfolding serve_buffered
  serve_buffered-overlap room held b e h lt = ground arith
