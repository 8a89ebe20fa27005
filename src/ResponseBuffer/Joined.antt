-- ===== src/ResponseBuffer/Joined.antt =====
-- A stream that arrives whole is joined in order: app/src/shared/response-buffer.ts.
use Prim.Native.String.{◌++◌}
use package.text.Mathlib.TextLemmas.{append-nil, append_assoc}
use sandi.Prelude.{ℕ, ◌+◌, String, false, List, [], ◌∷◌, length, ◌≡◌, ap, arith, eq_iff, ◌∙◌}
use sandi.ResponseBuffer.{
  Channel, ResponseChunk, delta, text, thinking, ResponseBuffer, accept, take_body,
}
use sandi.ResponseBuffer.Stream.{run}

-- Deltas as the chunks of a turn, numbered from a number on.
abbrev pub numbered : String → ℕ → List (Channel × String) → List ResponseChunk
numbered turn_id seq [] = []
numbered turn_id seq ((channel, new) ∷ deltas) =
    record { turn_id = turn_id; seq = seq; body = delta channel new }
    ∷ numbered turn_id (seq + 1) deltas

-- The deltas of each channel, joined.
abbrev pub joined_text : List (Channel × String) → String
joined_text [] = ""
joined_text ((text, new) ∷ deltas) = new ++ joined_text deltas
joined_text ((thinking, new) ∷ deltas) = joined_text deltas

abbrev pub joined_thoughts : List (Channel × String) → String
joined_thoughts [] = ""
joined_thoughts ((text, new) ∷ deltas) = joined_thoughts deltas
joined_thoughts ((thinking, new) ∷ deltas) = new ++ joined_thoughts deltas

accept-delta :
    (channel : Channel) (new : String) (buffer : ResponseBuffer)
    → buffer.ended ≡ false
    → (accept
        (record { turn_id = buffer.turn_id; seq = buffer.expected_seq; body = delta channel new })
        buffer).0
      ≡ (take_body (delta channel new) (record buffer { expected_seq = buffer.expected_seq + 1 })).0
unfolding accept
accept-delta channel new buffer opened = ground (arith, eq_iff buffer.turn_id buffer.turn_id)

-- On an open buffer, deltas that arrive with consecutive numbers from the expected one on are joined in their order, the
-- texts behind the text and the thoughts behind the thoughts, and nothing else changes but the next
-- expected number.
pub run-numbered :
    (deltas : List (Channel × String)) (buffer : ResponseBuffer)
    → buffer.ended ≡ false
    → run (numbered buffer.turn_id buffer.expected_seq deltas) buffer ≡ record buffer {
      streamed = buffer.streamed ++ joined_text deltas;
      thoughts = buffer.thoughts ++ joined_thoughts deltas;
      expected_seq = buffer.expected_seq + length deltas;
    }
unfolding run
run-numbered [] buffer opened =
    ground (arith, append-nil buffer.streamed, append-nil buffer.thoughts)
run-numbered ((text, new) ∷ deltas) buffer opened =
    ap (run (numbered buffer.turn_id (buffer.expected_seq + 1) deltas))
      (accept-delta text new buffer opened)
    ∙ run-numbered deltas
        (record buffer {
          streamed = buffer.streamed ++ new;
          expected_seq = buffer.expected_seq + 1;
        })
        opened
    ∙ ground (arith, append_assoc buffer.streamed new (joined_text deltas))
run-numbered ((thinking, new) ∷ deltas) buffer opened =
    ap (run (numbered buffer.turn_id (buffer.expected_seq + 1) deltas))
      (accept-delta thinking new buffer opened)
    ∙ run-numbered deltas
        (record buffer {
          thoughts = buffer.thoughts ++ new;
          expected_seq = buffer.expected_seq + 1;
        })
        opened
    ∙ ground (arith, append_assoc buffer.thoughts new (joined_thoughts deltas))
