-- ===== src/Tests/BoardRun.antt =====
-- A worker's surroundings with the tokeniser and the client of the board in them.
use claude_chats.Prelude.{true, codes}
use claude_chats.Worker.Sound.{Contract}
use claude_chats.Worker.Board.{Place, board, board-Contract}
use claude_chats.Tests.Demo.{demo}
use claude_chats.Tests.TokRuns.{tables, three}
use claude_chats.Tests.AgeRuns.{toy, me}
use claude_chats.Tests.ClientRuns.{by_key, client, silent}

-- The client starts each call anew, and its transport answers 503.
abbrev at_desk : Place demo by_key toy
at_desk = record {
  tables = tables;
  vocab = three;
  got_word = λ c. true;
  queue = codes "https://sqs.eu-west-2.amazonaws.com/1/q";
  results = codes "https://sqs.eu-west-2.amazonaws.com/1/r";
  client = λ c. client;
  wire = λ c. tt;
  keep = λ s ctx c. c;
  identity = me;
  stanza_size = 36;
  crypto = λ c. tt;
  keep_crypto = λ ctx c. c;
}

board-Contract_example : Contract (board demo by_key silent toy at_desk)
board-Contract_example = board-Contract demo by_key silent toy at_desk
