-- ===== src/ResponseBuffer.antt =====
-- One turn's streamed text and its reconciliation with the final body:
-- app/src/shared/response-buffer.ts. Texts are sequences of characters; the closure's variables are the
-- record `ResponseBuffer`.
pub mod Stream
pub mod Settle
pub mod Joined
mod Tests
use Prim.Native.String.{[], ◌∷◌, ◌++◌}
use sandi.Prelude.{
  ℕ, suc, ◌+◌, String, ◌==◌, Bool, true, false, not, ◌&&◌, Option, none, some, List, if◌then◌else◌,
  ltb, leb,
}
use sandi.Prelude.Text.{trim, is_empty}

pub data Channel : Type 0 where
  text thinking : Channel

pub data ChunkBody : Type 0 where
  delta : Channel → String → ChunkBody
  end : ChunkBody

pub record ResponseChunk : Type 0 where
  pub turn_id : String
  pub seq : ℕ
  pub body : ChunkBody

-- `expected_seq` is the source's `lastSeq`, which begins at -1, plus one.
pub record ResponseBuffer : Type 0 where
  pub turn_id : String
  pub streamed : String
  pub thoughts : String
  pub ended : Bool
  pub expected_seq : ℕ

pub create_response_buffer : String → ResponseBuffer
create_response_buffer turn_id = record {
  turn_id = turn_id;
  streamed = "";
  thoughts = "";
  ended = false;
  expected_seq = 0;
}

-- The part of `accept` behind its guards.
abbrev pub take_body : ChunkBody → ResponseBuffer → ResponseBuffer × Option (Channel × String)
take_body end buffer = (record buffer { ended = true }, none)
take_body (delta thinking new) buffer =
    (record buffer { thoughts = buffer.thoughts ++ new }, some (thinking, new))
take_body (delta text new) buffer =
    (record buffer { streamed = buffer.streamed ++ new }, some (text, new))

pub accept : ResponseChunk → ResponseBuffer → ResponseBuffer × Option (Channel × String)
accept chunk buffer =
    if not (chunk.turn_id == buffer.turn_id)
    then (buffer, none)
    else if buffer.ended
    then (buffer, none)
    else if ltb chunk.seq buffer.expected_seq
    then (buffer, none)
    else take_body chunk.body (record buffer { expected_seq = chunk.seq + 1 })

-- As many characters of the text as the other has, and `s.slice(p.length)`.
take_as : String → String → String
take_as [] s = []
take_as (c ∷ p) [] = []
take_as (c ∷ p) (d ∷ s) = d ∷ take_as p s

slice_after : String → String → String
slice_after [] s = s
slice_after (c ∷ p) [] = []
slice_after (c ∷ p) (d ∷ s) = slice_after p s

-- `s.startsWith(p)`
pub starts_with : (s p : String) → Bool
unfolding take_as
starts_with s p = take_as p s == p

pub reconcile_suffix : (streamed final : String) → String
unfolding slice_after
reconcile_suffix streamed final =
    if is_empty streamed
    then final
    else if starts_with final streamed
    then slice_after streamed final
    else if starts_with streamed final
    then ""
    else if trim streamed == trim final
    then ""
    else "\n" ++ final

pub settle : String → ResponseBuffer → ResponseBuffer × String
unfolding reconcile_suffix starts_with
settle final buffer =
    let suffix = reconcile_suffix buffer.streamed final in
    let settled =
      if starts_with suffix "\n" && not (is_empty buffer.streamed)
      then final
      else buffer.streamed ++ suffix in
    (record buffer { ended = true; streamed = settled }, suffix)
