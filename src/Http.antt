-- ===== src/Http.antt =====
-- The status server's HTTP, esp32-embedder/worker/httpreq.c: the route of a request, the head of a
-- response, and who may ask.
pub mod Routes
pub mod Address
pub mod Octets
pub mod Access
pub mod Peers
use Prim.Native.Nat.{bit_and}
use claude_chats.Prelude.{
  ℕ, zero, suc, ◌+◌, ◌-◌, ◌*◌, Bool, true, false, not, ◌&&◌, ◌||◌, Option, none, some, List, [],
  ◌∷◌, ◌++◌, length, take, get_or, ltb, leb, ◌==◌, if◌then◌else◌, Bytes, codes, bytes_eq, split_at,
  decimal,
}

-- `httpreq_route_t`
pub data Route : Type 0 where
  incomplete json not_found bad_method bad : Route

abbrev pub max_head : ℕ
max_head = 1024

abbrev pub is_empty {ℓ} : {A : Type ℓ} → List A → Bool
is_empty [] = true
is_empty (x ∷ xs) = false

abbrev pub starts : ℕ → Bytes → Bool
starts c [] = false
starts c (x ∷ xs) = x == c

abbrev pub after_first : Bytes → Bytes
after_first [] = []
after_first (x ∷ xs) = xs

-- A blank line somewhere: two line ends, the second one perhaps after a carriage return.
unfoldable pub head_complete : Bytes → Bool
head_complete [] = false
head_complete (c ∷ rest) =
    (c == 10 && (starts 10 rest || (starts 13 rest && starts 10 (after_first rest))))
    || head_complete rest

-- The line without the carriage return at its end.
unfoldable pub chomp : Bytes → Bytes
chomp [] = []
chomp (c ∷ []) = if c == 13 then [] else c ∷ []
chomp (c ∷ d ∷ rest) = c ∷ chomp (d ∷ rest)

abbrev pub is_control : ℕ → Bool
is_control c = ltb c 0x20 || c == 0x7f

unfoldable pub any_control : Bytes → Bool
any_control [] = false
any_control (c ∷ cs) = is_control c || any_control cs

unfoldable pub version_ok : Bytes → Bool
version_ok v =
    length v == 8
    && (bytes_eq (take 7 v) (codes "HTTP/1.") && (get_or v 7 0 == b'0' || get_or v 7 0 == b'1'))

-- `/json`, with a query or without.
unfoldable pub is_json : Bytes → Bool
is_json t =
    (length t == 5 || (ltb 5 (length t) && get_or t 5 0 == b'?'))
    && bytes_eq (take 5 t) (codes "/json")

unfoldable pub route_target : Bytes → Bytes → Route
route_target method target =
    if not (bytes_eq method (codes "GET"))
    then bad_method
    else if not (starts b'/' target)
    then bad
    else if is_json target
    then json
    else not_found

-- METHOD SP target SP HTTP/1.x
unfoldable pub route_line : Bytes → Route
route_line line = if any_control line then bad else elim (split_at 32 line) [
  | none ↦ bad
  | some (method, rest) ↦ elim (split_at 32 rest) [
    | none ↦ bad
    | some (target, version) ↦
        if is_empty method || (is_empty target || not (version_ok version))
        then bad
        else route_target method target
  ]
]

-- A complete head has a line end, so the last `bad` is never the answer.
unfoldable pub httpreq_route : Bytes → Route
httpreq_route buf =
    if not (head_complete buf)
    then (if leb max_head (length buf) then bad else incomplete)
    else elim (split_at 10 buf) [ none ↦ bad | some (line, rest) ↦ route_line (chomp line) ]

unfoldable pub httpreq_status : Route → ℕ
httpreq_status json = 200
httpreq_status not_found = 404
httpreq_status bad_method = 405
httpreq_status bad = 400
httpreq_status incomplete = 0

unfoldable pub reason : ℕ → Bytes
reason status =
    if status == 200
    then codes "OK"
    else if status == 400
    then codes "Bad Request"
    else if status == 404
    then codes "Not Found"
    else if status == 405
    then codes "Method Not Allowed"
    else if status == 503
    then codes "Service Unavailable"
    else codes "Error"

abbrev pub crlf : Bytes
crlf = 13 ∷ 10 ∷ []

-- The text that `snprintf` makes; a wait of 0 stands for none.
unfoldable pub response_text : ℕ → Bytes → ℕ → ℕ → Bytes
response_text status content_type content_length retry_after_s =
    codes "HTTP/1.1 "
    ++ (decimal status
        ++ (codes " "
            ++ (reason status
                ++ (crlf
                    ++ (codes "Content-Type: "
                        ++ (content_type
                            ++ (crlf
                                ++ (codes "Content-Length: "
                                    ++ (decimal content_length
                                        ++ (crlf
                                            ++ (codes "Cache-Control: no-store"
                                                ++ (crlf
                                                    ++ ((if status == 405
                                                          then codes "Allow: GET" ++ crlf
                                                          else [])
                                                        ++ ((if ltb 0 retry_after_s
                                                            then codes "Retry-After: "
                                                            ++ (decimal retry_after_s ++ crlf)
                                                            else [])
                                                            ++ (codes "Connection: close"
                                                            ++ (crlf ++ crlf))))))))))))))))

-- What stands in `out`, of `cap` bytes: the head, or nothing where it does not fit with its NUL.
unfoldable pub httpreq_head : ℕ → ℕ → Bytes → ℕ → ℕ → Bytes
httpreq_head cap status content_type content_length retry_after_s =
    let text = response_text status content_type content_length retry_after_s in
    if leb cap (length text) then [] else text

-- The digits of an octet, three at most: its value, how many there are, and what follows.
unfoldable pub take_digits : ℕ → ℕ → Bytes → ℕ × ℕ × Bytes
take_digits zero v s = (v, 0, s)
take_digits (suc k) v [] = (v, 0, [])
take_digits (suc k) v (c ∷ s) =
    let (v', m, r) = take_digits k (v * 10 + (c - 48)) s in
    if leb 48 c && leb c 57 then (v', m + 1, r) else (v, 0, c ∷ s)

unfoldable pub octet : Bytes → Option (ℕ × Bytes)
octet s =
    let (v, m, r) = take_digits 3 0 s in
    if (m == 0 || ltb 255 v) || (ltb 1 m && starts b'0' s) then none else some (v, r)

-- The dot in front of every part but the first.
unfoldable pub after_dot : Bool → Bytes → Option Bytes
after_dot true s = some s
after_dot false [] = none
after_dot false (c ∷ s) = if c == b'.' then some s else none

unfoldable pub ip_parts : ℕ → Bool → ℕ → Bytes → Option (ℕ × Bytes)
ip_parts zero first v s = some (v, s)
ip_parts (suc left) first v s = elim (after_dot first s) [
  | none ↦ none
  | some s' ↦ elim (octet s') [ none ↦ none | some (o, r) ↦ ip_parts left false (v * 256 + o) r ]
]

unfoldable pub httpreq_parse_ip : Bytes → Option ℕ
httpreq_parse_ip s = elim (ip_parts 4 true 0 s) [
  | none ↦ none
  | some (v, r) ↦ if is_empty r then some v else none
]

abbrev pub is_separator : ℕ → Bool
is_separator c = c == b',' || c == b' '

unfoldable pub skip_separators : Bytes → Bytes
skip_separators [] = []
skip_separators (c ∷ s) = if is_separator c then skip_separators s else c ∷ s

-- Up to the next separator, and from it on.
unfoldable pub word : Bytes → Bytes × Bytes
word [] = ([], [])
word (c ∷ s) = let (w, r) = word s in if is_separator c then ([], c ∷ s) else (c ∷ w, r)

-- The loop, on fuel: each round takes a byte at least.
unfoldable pub allow_from : ℕ → ℕ → List ℕ → Bytes → Option (List ℕ)
allow_from zero max got s = some got
allow_from (suc fuel) max got s = elim (skip_separators s) [
  | [] ↦ some got
  | c ∷ cs ↦ if length got == max then none else elim (httpreq_parse_ip (word (c ∷ cs)).0) [
    | none ↦ none
    | some ip ↦ allow_from fuel max (got ++ (ip ∷ [])) (word (c ∷ cs)).1
  ]
]

-- The addresses, or nothing for -1.
unfoldable pub httpreq_parse_allow : Bytes → ℕ → Option (List ℕ)
httpreq_parse_allow s max = elim (allow_from (suc (length s)) max [] s) [
  | none ↦ none
  | some got ↦ if not (is_empty s) && is_empty got then none else some got
]

unfoldable pub listed : ℕ → List ℕ → Bool
listed peer [] = false
listed peer (a ∷ rest) = a == peer || listed peer rest

unfoldable pub httpreq_peer_ok : ℕ → ℕ → ℕ → List ℕ → Bool
httpreq_peer_ok peer self mask allow =
    if self == 0
    then false
    else if not (is_empty allow)
    then listed peer allow
    else not (mask == 0) && bit_and peer mask == bit_and self mask
