-- ===== src/Sqs/Client/Hosts.antt =====
-- The hosts that `sqs_init` of esp32-embedder/worker/sqs.c accepts.
use claude_chats.Prelude.{
  ◌<◌, ◌≡◌, refl, sym, ap, ◌∙◌, inl, inr, true, false, Bool-cases, Option, none, some, Option-cases,
  [], ◌∷◌, ◌++◌, length, take, drop, leb, arith, Bytes, codes, bytes_eq, bytes_eq→eq, split_at,
  split_at_lem, take_is,
}
use mathlib.Core.Path.{subst}
use claude_chats.Prelude.Int.{pos}
use claude_chats.Kw.Jbuf.{jb_init}
use claude_chats.Creds.{AwsCreds}
use claude_chats.Sqs.Client.{SqsClient, region_of, sqs_init}

region_of_lem :
    (host region : Bytes)
    → region_of host ≡ some region
    → (drop 4 host ≡ region ++ codes ".amazonaws.com") × (length region < 24)
unfolding region_of
region_of_lem host region h = elim (Option-cases (split_at b'.' (drop 4 host))) [
  | inl no_dot ↦ absurd (ground arith)
  | inr ((a, b), found) ↦ elim (Bool-cases (bytes_eq b (codes "amazonaws.com"))) [
    | inr other ↦ absurd (ground arith)
    | inl aws ↦ elim (Bool-cases (leb 24 (length a))) [
      | inl long ↦ absurd (ground arith)
      | inr short ↦
          let a_is : a ≡ region = ground arith in
          (
            split_at_lem b'.' (drop 4 host) a b found
                ∙ ap (λ x. a ++ (b'.' ∷ x)) (bytes_eq→eq b (codes "amazonaws.com") aws)
                ∙ ap (λ x. x ++ codes ".amazonaws.com") a_is,
            subst (λ x. length x < 24) a_is (ground arith),
          )
    ]
  ]
]

abbrev fst_or : Option (Bytes × Bytes) → Bytes
fst_or none = []
fst_or (some (a, b)) = a

-- A host that starts with "sqs." does so in front of its slash.
sqs_first :
    (t host rest : Bytes)
    → split_at b'/' (codes "sqs." ++ t) ≡ some (host, rest)
    → host ≡ codes "sqs." ++ drop 4 host
unfolding split_at
sqs_first t host rest h = elim (Option-cases (split_at b'/' t)) [
  | inl no_slash ↦ absurd (ground arith)
  | inr ((a, b), found) ↦
      let whole : split_at b'/' (codes "sqs." ++ t) ≡ some (codes "sqs." ++ a, b) =
        rw (split_at, found) refl in
      let e : codes "sqs." ++ a ≡ host = ap fst_or (sym whole ∙ h) in
      subst (λ x. x ≡ codes "sqs." ++ drop 4 x) e refl
]

-- What `sqs_init` makes of a queue's URL.
pub record Reaches (queue_url : Bytes) (creds : Option AwsCreds) (s : SqsClient) : Type 0 where
  pub rest : Bytes
  pub url_is : queue_url ≡ codes "https://" ++ (s.host ++ (b'/' ∷ rest))
  pub host_is : s.host ≡ codes "sqs." ++ (s.region ++ codes ".amazonaws.com")
  pub host_fits : length s.host < 64
  pub region_fits : length s.region < 24
  pub creds_are : s.creds ≡ creds

-- A client that `sqs_init` makes calls the host of the queue's URL, which is SQS of Amazon Web
-- Services in the client's region; the host and the region fit in their arrays.
pub sqs_init_lem :
    (queue_url : Bytes) (creds : Option AwsCreds) (s : SqsClient)
    → sqs_init queue_url creds ≡ some s
    → Reaches queue_url creds s
unfolding sqs_init
sqs_init_lem queue_url creds s h =
    elim (Bool-cases (bytes_eq (take 8 queue_url) (codes "https://"))) [
      | inr other ↦ absurd (ground arith)
      | inl https ↦
          let u = drop 8 queue_url in
          elim (Option-cases (split_at b'/' u)) [
            | inl no_slash ↦ absurd (ground arith)
            | inr ((host, rest), found) ↦ elim (Option-cases (region_of host)) [
              | inl no_region ↦ absurd (ground arith)
              | inr (region, is_region) ↦
                  let sqs : bytes_eq (take 4 u) (codes "sqs.") ≡ true = ground arith in
                  let fits : leb 64 (length host) ≡ false = ground arith in
                  let u_is = take_is 4 u (codes "sqs.") sqs in
                  let front =
                    sqs_first (drop 4 u) host rest (ap (split_at b'/') (sym u_is) ∙ found) in
                  let (tail, short) = region_of_lem host region is_region in
                  let made : s ≡ record {
                    creds = creds;
                    region = region;
                    host = host;
                    req = jb_init;
                    resp = jb_init;
                    last_status = pos 0;
                    last_error = [];
                  } =
                    ground arith in
                  subst (Reaches queue_url creds) (sym made) (record {
                    rest = rest;
                    url_is =
                        take_is 8 queue_url (codes "https://") https
                        ∙ ap (λ x. codes "https://" ++ x) (split_at_lem b'/' u host rest found);
                    host_is = front ∙ ap (λ x. codes "sqs." ++ x) tail;
                    host_fits = ground arith;
                    region_fits = short;
                    creds_are = refl;
                  })
            ]
          ]
    ]
