-- ===== src/Tests/SqsRuns.antt =====
-- A reply that says the first entry was accepted, and one with three messages.
use claude_chats.Prelude.{
  ◌≡◌, refl, true, false, Option, none, some, List, [], ◌∷◌, get_or, if◌then◌else◌, Bytes, codes,
  bytes_eq,
}
use claude_chats.Prelude.Int.{pos}
use claude_chats.Sqs.{
  Reading, batch_outcome, entry_id, entry_counts, note_all, note_success, note_at, digest_ok,
}
use claude_chats.Sqs.Outcome.{Vouched, batch_outcome_lem}

data ReplyNode : Type 0 where
  reply element an_id a_digest : ReplyNode

abbrev reply_reading : Reading
reply_reading = record {
  Node = ReplyNode;
  item = λ o k. elim o [
    | none ↦ none
    | some v ↦ elim v [
      | reply ↦ some reply
      | element ↦
          if bytes_eq (codes k) (codes "MD5OfMessageBody") then some a_digest else some an_id
      | an_id ↦ none
      | a_digest ↦ none
    ]
  ];
  string = λ o. elim o [
    | none ↦ none
    | some v ↦ elim v [ an_id ↦ some (codes "0") | a_digest ↦ some (codes "d") | _ ↦ none ]
  ];
  elems = λ o. elim o [ none ↦ [] | some v ↦ elim v [ reply ↦ element ∷ [] | _ ↦ [] ] ];
  md5_hex = λ b. codes "d";
  atoi = λ b. pos 0;
  Ctx = Unit;
  strndup = λ b c. (true, c);
}

abbrev two_bodies : Option (List Bytes)
two_bodies = some (codes "a" ∷ codes "b" ∷ [])

first_accepted :
    get_or (batch_outcome reply_reading (some reply) two_bodies 2 (false ∷ false ∷ [])) 0 false
    ≡ true
unfolding batch_outcome note_all note_success note_at entry_id entry_counts digest_ok bytes_eq
first_accepted = refl

batch_outcome_lem_example : Vouched reply_reading two_bodies 2 (element ∷ []) 0
batch_outcome_lem_example =
    batch_outcome_lem reply_reading two_bodies 2 (some reply) (false ∷ false ∷ []) 0 refl
      first_accepted
