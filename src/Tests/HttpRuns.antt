-- ===== src/Tests/HttpRuns.antt =====
-- Requests, addresses and lists of addresses, as text.
use claude_chats.Prelude.{
  ℕ, ◌<◌, ◌≡◌, ◌≢◌, ◌↔◌, ◌⊎◌, refl, true, some, none, List, [], ◌∷◌, ◌++◌, ◌^◌, arith, Bytes,
  split_at, codes, bytes_eq, In,
}
use claude_chats.Http.{
  json, httpreq_route, httpreq_parse_ip, httpreq_parse_allow, httpreq_peer_ok, head_complete, chomp,
  any_control, version_ok, is_json, route_line, route_target, take_digits, octet, after_dot,
  ip_parts, skip_separators, word, allow_from,
}
use claude_chats.Http.Routes.{IsQuery, httpreq_route_lem}
use claude_chats.Http.Octets.{httpreq_parse_ip_lem}
use claude_chats.Http.Address.{dotted}
use claude_chats.Http.Access.{joined, httpreq_parse_allow-joined}
use claude_chats.Http.Peers.{httpreq_peer_ok-httpreq_parse_allow}

abbrev request : Bytes
request = codes "GET /json?x HTTP/1.1" ++ (13 ∷ 10 ∷ 13 ∷ 10 ∷ [])

request_served : httpreq_route request ≡ json
unfolding httpreq_route head_complete split_at chomp route_line any_control version_ok is_json
    route_target bytes_eq
request_served = refl

httpreq_route_lem_example :
    (query : Bytes) × (digit : ℕ) × (line_end : Bytes) × (rest : Bytes) × (request
      ≡ codes "GET /json" ++ (query ++ (codes " HTTP/1." ++ (digit ∷ (line_end ++ rest)))))
    × IsQuery query
    × ((digit ≡ b'0') ⊎ (digit ≡ b'1'))
    × ((line_end ≡ 10 ∷ []) ⊎ (line_end ≡ 13 ∷ 10 ∷ []))
httpreq_route_lem_example = httpreq_route_lem request request_served

httpreq_parse_ip_lem_example :
    (httpreq_parse_ip (codes "192.168.4.20") ≡ some 3232236564)
    ↔ ((3232236564 < 2 ^ 32) × (codes "192.168.4.20" ≡ dotted 3232236564))
httpreq_parse_ip_lem_example = httpreq_parse_ip_lem (codes "192.168.4.20") 3232236564

leading_zero : httpreq_parse_ip (codes "192.168.04.20") ≡ none
unfolding httpreq_parse_ip ip_parts after_dot octet take_digits
leading_zero = refl

abbrev two_peers : List ℕ
two_peers = 3232236564 ∷ 167772161 ∷ []

httpreq_parse_allow-joined_example : httpreq_parse_allow (joined two_peers) 4 ≡ some two_peers
httpreq_parse_allow-joined_example =
    httpreq_parse_allow-joined two_peers 4 (omega arith, (omega arith, tt)) (omega arith)

abbrev one_peer : Bytes
one_peer = codes " 10.0.0.1"

one_peer_read : httpreq_parse_allow one_peer 4 ≡ some (167772161 ∷ [])
unfolding httpreq_parse_allow allow_from skip_separators word httpreq_parse_ip ip_parts after_dot
    octet take_digits
one_peer_read = refl

httpreq_peer_ok-httpreq_parse_allow_example :
    (httpreq_peer_ok 167772161 5 255 (167772161 ∷ []) ≡ true)
    ↔ (◌≢◌ {A = ℕ} 5 0 × In {A = ℕ} 167772161 (167772161 ∷ []))
httpreq_peer_ok-httpreq_parse_allow_example =
    httpreq_peer_ok-httpreq_parse_allow one_peer 4 (167772161 ∷ []) 167772161 5 255
      (λ e. ground arith) one_peer_read
