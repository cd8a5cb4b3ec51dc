-- ===== src/Creds/Good.antt =====
-- What `creds_refresh` of esp32-embedder/worker/creds.c leaves.
use claude_chats.Prelude.{ℕ, ◌+◌, ◌≤◌, ◌<◌, ◌≡◌, Bool, true, false, Option, some, length, Bytes}
use claude_chats.Prelude.Int.{ℤ, pos}
use claude_chats.Sqs.{Reading}
use claude_chats.Creds.{
  AwsCreds, expired, Refreshed, fetched, cached, failed, Provider, access_room, secret_room,
}

-- The keys fit in the arrays that hold them, with their NUL.
abbrev pub Fits : AwsCreds → Type 0
Fits c = (length c.access_key < access_room) × (length c.secret_key < secret_room)

-- There is a token, and it expires more than so many seconds from now.
abbrev pub GoodFor : AwsCreds → ℕ → ℕ → Type 0
GoodFor c now seconds =
    ((token : Bytes) × (c.token ≡ some token))
    × ((t : ℕ) × (c.expires ≡ pos t) × (now + seconds < t))

-- There is a token, and it expires at this time at the latest.
abbrev pub ExpiresBy : AwsCreds → ℕ → Type 0
ExpiresBy c latest =
    ((token : Bytes) × (c.token ≡ some token)) × ((t : ℕ) × (c.expires ≡ pos t) × (t ≤ latest))

-- What each result says of the credentials before and after.
abbrev pub Said : AwsCreds → ℕ → Refreshed → AwsCreds → Type 0
Said c now fetched c1 = GoodFor c1 now 60
Said c now cached c1 = (c1 ≡ c) × GoodFor c1 now 600
Said c now (failed expired) c1 = ExpiresBy c1 (now + 60)
Said c now (failed _) c1 = c1 ≡ c

-- A token, and a time.
abbrev Timed : Option Bytes → ℤ → Type 0
Timed o z = ((token : Bytes) × (o ≡ some token)) × ((t : ℕ) × (z ≡ pos t))

-- After a parse: nothing new, or keys that fit, with a token and a time.
abbrev Parsed : AwsCreds → Bool × AwsCreds → Type 0
Parsed c (false, c1) = c1 ≡ c
Parsed c (true, c1) = Fits c1 × Timed c1.token c1.expires

module _ (r : Reading) (p : Provider r) where
  -- What the result says, and keys that fit where they did.
  abbrev Held : AwsCreds → ℕ → Refreshed × AwsCreds → Type 0
  Held c now x = Said c now x.0 x.1 × (Fits c → Fits x.1)
