-- ===== src/Http/Status.antt =====
-- http.StatusText, the status codes that the code names, and numbers in decimal.
use single_proxy.Base.{
  ℕ, zero, suc, ◌+◌, ◌/◌, ◌%◌, Str, codes, List, [], ◌∷◌, ◌++◌, ◌≡◌, refl, none, some, lookup, ltb,
  nat_key, if◌then◌else◌,
}

abbrev pub status_ok : ℕ
status_ok = 200

abbrev pub status_no_content : ℕ
status_no_content = 204

abbrev pub status_bad_request : ℕ
status_bad_request = 400

abbrev pub status_not_found : ℕ
status_not_found = 404

abbrev pub status_method_not_allowed : ℕ
status_method_not_allowed = 405

abbrev pub status_too_many_requests : ℕ
status_too_many_requests = 429

abbrev pub status_internal_server_error : ℕ
status_internal_server_error = 500

abbrev pub status_bad_gateway : ℕ
status_bad_gateway = 502

abbrev pub status_service_unavailable : ℕ
status_service_unavailable = 503

abbrev pub status_gateway_timeout : ℕ
status_gateway_timeout = 504

status_texts : List (ℕ × Str)
status_texts =
    (100, codes "Continue")
    ∷ (101, codes "Switching Protocols")
    ∷ (102, codes "Processing")
    ∷ (103, codes "Early Hints")
    ∷ (200, codes "OK")
    ∷ (201, codes "Created")
    ∷ (202, codes "Accepted")
    ∷ (203, codes "Non-Authoritative Information")
    ∷ (204, codes "No Content")
    ∷ (205, codes "Reset Content")
    ∷ (206, codes "Partial Content")
    ∷ (207, codes "Multi-Status")
    ∷ (208, codes "Already Reported")
    ∷ (226, codes "IM Used")
    ∷ (300, codes "Multiple Choices")
    ∷ (301, codes "Moved Permanently")
    ∷ (302, codes "Found")
    ∷ (303, codes "See Other")
    ∷ (304, codes "Not Modified")
    ∷ (305, codes "Use Proxy")
    ∷ (307, codes "Temporary Redirect")
    ∷ (308, codes "Permanent Redirect")
    ∷ (400, codes "Bad Request")
    ∷ (401, codes "Unauthorized")
    ∷ (402, codes "Payment Required")
    ∷ (403, codes "Forbidden")
    ∷ (404, codes "Not Found")
    ∷ (405, codes "Method Not Allowed")
    ∷ (406, codes "Not Acceptable")
    ∷ (407, codes "Proxy Authentication Required")
    ∷ (408, codes "Request Timeout")
    ∷ (409, codes "Conflict")
    ∷ (410, codes "Gone")
    ∷ (411, codes "Length Required")
    ∷ (412, codes "Precondition Failed")
    ∷ (413, codes "Request Entity Too Large")
    ∷ (414, codes "Request URI Too Long")
    ∷ (415, codes "Unsupported Media Type")
    ∷ (416, codes "Requested Range Not Satisfiable")
    ∷ (417, codes "Expectation Failed")
    ∷ (418, codes "I'm a teapot")
    ∷ (421, codes "Misdirected Request")
    ∷ (422, codes "Unprocessable Entity")
    ∷ (423, codes "Locked")
    ∷ (424, codes "Failed Dependency")
    ∷ (425, codes "Too Early")
    ∷ (426, codes "Upgrade Required")
    ∷ (428, codes "Precondition Required")
    ∷ (429, codes "Too Many Requests")
    ∷ (431, codes "Request Header Fields Too Large")
    ∷ (451, codes "Unavailable For Legal Reasons")
    ∷ (500, codes "Internal Server Error")
    ∷ (501, codes "Not Implemented")
    ∷ (502, codes "Bad Gateway")
    ∷ (503, codes "Service Unavailable")
    ∷ (504, codes "Gateway Timeout")
    ∷ (505, codes "HTTP Version Not Supported")
    ∷ (506, codes "Variant Also Negotiates")
    ∷ (507, codes "Insufficient Storage")
    ∷ (508, codes "Loop Detected")
    ∷ (510, codes "Not Extended")
    ∷ (511, codes "Network Authentication Required")
    ∷ []

unfoldable pub status_text : ℕ → Str
unfolding status_texts
status_text code = elim (lookup code status_texts) [ none ↦ [] | some text ↦ text ]

-- Sprintf "%d" of a natural number; a number has fewer digits than itself plus one.
decimal_from : ℕ → ℕ → Str
decimal_from zero n = []
decimal_from (suc f) n =
    let front = decimal_from f (n / 10) in
    if ltb n 10 then (b'0' + n) ∷ [] else front ++ (b'0' + n % 10) ∷ []

unfoldable pub decimal : ℕ → Str
unfolding decimal_from
decimal n = decimal_from (n + 1) n

decimal_404 : decimal 404 ≡ codes "404"
unfolding decimal
decimal_404 = refl
