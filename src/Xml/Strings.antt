-- ===== src/Xml/Strings.antt =====
-- The strings that src/XmlReader.cpp copies for an application: transcode and release. A `char *` is a
-- block. The functions of the C library that convert by the locale are a parameter.
pub mod Cut
use libkolibre_xmlreader.Base.{
  ℕ, ◌+◌, ◌*◌, Option, none, some, List, ltb, leb, if◌then◌else◌, Bytes, c_str, length,
}
use libkolibre_xmlreader.Base.Outcome.{Outcome, done, fault}
use libkolibre_xmlreader.Http.Stream.{Block, null, freed, live, free, duplicate}

pub record Locale : Type 0 where
  -- What `mbstowcs (dst, text, n)` stores for a text, and as many as it returns; `none` is -1.
  pub mbstowcs : Bytes → ℕ → Option (List ℕ)
  pub wcstombs : List ℕ → ℕ → Option Bytes

-- `buff[mbslen] = '\0'` and strdup. The array has `size * 2` bytes.
unfoldable pub end_buffer : ℕ → Option Bytes → Outcome Block
end_buffer size none = fault
end_buffer size (some bytes) =
    if ltb (length bytes) (size * 2) then done (duplicate (some (c_str bytes))) else fault

-- `wchars[wcslen] = '\0'` and the way back. The array has `size + 1` characters.
unfoldable pub end_wide : Locale → ℕ → Option (List ℕ) → Outcome Block
unfolding end_buffer
end_wide l size none = fault
end_wide l size (some wide) =
    if ltb (length wide) (size + 1) then end_buffer size (l.wcstombs wide (size * 2)) else fault

unfoldable pub transcode_cut : Locale → Block → ℕ → Outcome Block
unfolding end_wide
transcode_cut l null size = done null
transcode_cut l freed size = fault
transcode_cut l (live room content) size = end_wide l size (l.mbstowcs (c_str content) size)

unfoldable pub transcode : Block → Outcome Block
transcode null = done null
transcode freed = fault
transcode (live room content) = done (duplicate (some (c_str content)))

-- The cast back.
abbrev pub to_xml : Block → Block
to_xml chars = chars

unfoldable pub release : Block → Outcome Block
unfolding free
release chars = free chars

-- This one is empty.
abbrev pub release_xml : Block → Block
release_xml chars = chars
