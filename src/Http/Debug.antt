-- ===== src/Http/Debug.antt =====
-- The debug callback of src/HttpStream.cpp: what it hands to the log, line by line.
use libkolibre_xmlreader.Base.{◌≡◌, refl, List, [], ◌∷◌, ◌++◌, Bytes, codes}

-- `curl_infotype`.
pub data InfoType : Type 0 where
  text header_in header_out data_in data_out ssl_data_in ssl_data_out : InfoType
  end_of_types : InfoType

pub data LogLine : Type 0 where
  info debug : Bytes → LogLine

-- What is told of a transfer of data: at the level of information that there was one, and the data
-- at that of debugging.
unfoldable pub data_lines : Bytes → Bytes → List LogLine
data_lines name message =
    info (name ++ codes ": <see debug for data>") ∷ debug (name ++ (codes ": " ++ message)) ∷ []

unfoldable pub debug_callback : InfoType → Bytes → List LogLine
unfolding data_lines
debug_callback text message = info (codes "CURLINFO_TEXT: " ++ message) ∷ []
debug_callback header_in message = info (codes "CURLINFO_HEADER_IN: " ++ message) ∷ []
debug_callback header_out message = info (codes "CURLINFO_HEADER_OUT: " ++ message) ∷ []
debug_callback data_in message = data_lines (codes "CURLINFO_DATA_IN") message
debug_callback data_out message = data_lines (codes "CURLINFO_DATA_OUT") message
debug_callback ssl_data_in message = data_lines (codes "CURLINFO_SSL_DATA_IN") message
debug_callback ssl_data_out message = data_lines (codes "CURLINFO_SSL_DATA_OUT") message
debug_callback end_of_types message = info (codes "CURLINFO_END: " ++ message) ∷ []

-- The lines of the level of information.
abbrev pub informed : List LogLine → List LogLine
informed [] = []
informed (info line ∷ rest) = info line ∷ informed rest
informed (debug line ∷ rest) = informed rest

pub data IsData : InfoType → Type 0 where
  received : IsData data_in
  sent : IsData data_out
  received_ssl : IsData ssl_data_in
  sent_ssl : IsData ssl_data_out

-- What is transferred does not show in the lines of the level of information: for a type of data they
-- are the same whatever the message is.
pub informed-debug_callback :
    (type : InfoType) (m m' : Bytes)
    → IsData type
    → informed (debug_callback type m) ≡ informed (debug_callback type m')
unfolding debug_callback
informed-debug_callback type m m' received = refl
informed-debug_callback type m m' sent = refl
informed-debug_callback type m m' received_ssl = refl
informed-debug_callback type m m' sent_ssl = refl
