-- ===== src/Http/Status.antt =====
-- getHttpMsg of src/HttpStream.cpp: the text for an HTTP status code.
use libkolibre_xmlreader.Base.{ℕ, List, [], ◌∷◌, ◌==◌, if◌then◌else◌, Bytes, codes}

-- The cases of the switch, in order.
http_messages : List (ℕ × Bytes)
http_messages =
    (100, codes "100 Continue")
    ∷ (101, codes "101 Switching Protocols")
    ∷ (102, codes "102 Processing")
    ∷ (200, codes "200 OK")
    ∷ (201, codes "201 Created")
    ∷ (202, codes "202 Accepted")
    ∷ (203, codes "203 Non-Authoritative Information")
    ∷ (204, codes "204 No Content")
    ∷ (205, codes "205 Reset Content")
    ∷ (206, codes "206 Partial Content")
    ∷ (207, codes "207 Multi-Status")
    ∷ (300, codes "300 Multiple Choices")
    ∷ (301, codes "301 Moved Permanently")
    ∷ (302, codes "302 Found")
    ∷ (303, codes "303 See Other")
    ∷ (304, codes "304 Not Modified")
    ∷ (305, codes "305 Use Proxy")
    ∷ (307, codes "307 Temporary Redirect")
    ∷ (400, codes "400 Bad Request")
    ∷ (401, codes "401 Unauthorized")
    ∷ (402, codes "402 Payment Granted")
    ∷ (403, codes "403 Forbidden")
    ∷ (404, codes "404 File Not Found")
    ∷ (405, codes "405 Method Not Allowed")
    ∷ (406, codes "406 Not Acceptable")
    ∷ (407, codes "407 Proxy Authentication Required")
    ∷ (408, codes "408 Request Time-out")
    ∷ (409, codes "409 Conflict")
    ∷ (410, codes "410 Gone")
    ∷ (411, codes "411 Length Required")
    ∷ (412, codes "412 Precondition Failed")
    ∷ (413, codes "413 Request Entity Too Large")
    ∷ (414, codes "414 Request-URI Too Large")
    ∷ (415, codes "415 Unsupported Media Type")
    ∷ (416, codes "416 Requested range not satisfiable")
    ∷ (417, codes "417 Expectation Failed")
    ∷ (422, codes "422 Unprocessable Entity")
    ∷ (423, codes "423 Locked")
    ∷ (424, codes "424 Failed Dependency")
    ∷ (500, codes "500 Internal Server Error")
    ∷ (501, codes "501 Not Implemented")
    ∷ (502, codes "502 Bad Gateway")
    ∷ (503, codes "503 Service Unavailable")
    ∷ (504, codes "504 Gateway Time-out")
    ∷ (505, codes "505 HTTP Version not supported")
    ∷ (507, codes "507 Insufficient Storage")
    ∷ []

-- `case key: return text;`, or else what stands behind the switch.
switch : ℕ → List (ℕ × Bytes) → Bytes → Bytes
switch code [] default = default
switch code ((key, text) ∷ rest) default = if code == key then text else switch code rest default

unfoldable pub get_http_msg : ℕ → Bytes
unfolding http_messages switch
get_http_msg code = switch code http_messages (codes "unknown http status code")
