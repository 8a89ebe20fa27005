-- ===== src/ResponseBuffer/Stream.antt =====
-- What the stream of chunks makes of the buffer: app/src/shared/response-buffer.ts.
use sandi.Prelude.{
  suc, ◌+◌, ◌≤◌, String, ◌==◌, true, false, none, List, [], ◌∷◌, ◌≡◌, refl, ap, ◌⊎◌, inl, inr,
  arith, ◌∙◌, All,
}
use sandi.ResponseBuffer.{
  ResponseChunk, ChunkBody, delta, end, text, thinking, ResponseBuffer, accept, settle, take_body,
}

-- The chunks of a connection, in order.
unfoldable pub run : List ResponseChunk → ResponseBuffer → ResponseBuffer
run [] buffer = buffer
run (chunk ∷ chunks) buffer = run chunks (accept chunk buffer).0

-- The chunk means nothing to the buffer any more: it is of another turn, the stream has ended, or its
-- number was already passed.
abbrev Passed : ResponseBuffer → ResponseChunk → Type 0
Passed buffer chunk =
    ((chunk.turn_id == buffer.turn_id) ≡ false)
    ⊎ (buffer.ended ≡ true)
    ⊎ (suc chunk.seq ≤ buffer.expected_seq)

take_body_turn :
    (body : ChunkBody) (buffer : ResponseBuffer)
    → ((take_body body buffer).0.turn_id ≡ buffer.turn_id)
      × ((take_body body buffer).0.expected_seq ≡ buffer.expected_seq)
take_body_turn end buffer = (refl, refl)
take_body_turn (delta thinking new) buffer = (refl, refl)
take_body_turn (delta text new) buffer = (refl, refl)

accept-Passed :
    (chunk : ResponseChunk) (buffer : ResponseBuffer) → Passed (accept chunk buffer).0 chunk
unfolding accept
accept-Passed chunk buffer =
    ground (arith, take_body_turn chunk.body (record buffer { expected_seq = chunk.seq + 1 }))

accept_keeps-Passed :
    (chunk seen : ResponseChunk) (buffer : ResponseBuffer)
    → Passed buffer seen
    → Passed (accept chunk buffer).0 seen
unfolding accept
accept_keeps-Passed chunk seen buffer h =
    ground (arith, take_body_turn chunk.body (record buffer { expected_seq = chunk.seq + 1 }))

accept_stale :
    (chunk : ResponseChunk) (buffer : ResponseBuffer)
    → Passed buffer chunk
    → accept chunk buffer ≡ (buffer, none)
unfolding accept
accept_stale chunk buffer h = ground arith

run_keeps-Passed :
    (chunks : List ResponseChunk) (seen : ResponseChunk) (buffer : ResponseBuffer)
    → Passed buffer seen
    → Passed (run chunks buffer) seen
unfolding run
run_keeps-Passed [] seen buffer h = h
run_keeps-Passed (c ∷ cs) seen buffer h =
    run_keeps-Passed cs seen (accept c buffer).0 (accept_keeps-Passed c seen buffer h)

run-Passed :
    (chunks : List ResponseChunk) (buffer : ResponseBuffer)
    → All (Passed (run chunks buffer)) chunks
unfolding run
run-Passed [] buffer = tt
run-Passed (c ∷ cs) buffer = (
  run_keeps-Passed cs c (accept c buffer).0 (accept-Passed c buffer),
  run-Passed cs (accept c buffer).0,
)

run_stale :
    (chunks : List ResponseChunk) (buffer : ResponseBuffer)
    → All (Passed buffer) chunks
    → run chunks buffer ≡ buffer
unfolding run
run_stale [] buffer h = refl
run_stale (c ∷ cs) buffer h =
    ap (λ r. run cs r.0) (accept_stale c buffer h.0) ∙ run_stale cs buffer h.1

-- A replay changes nothing: after any chunks, later chunks included, receiving the first ones over again, in
-- their order, leaves the buffer as it is.
pub run-replayed :
    (chunks later : List ResponseChunk) (buffer : ResponseBuffer)
    → run chunks (run later (run chunks buffer)) ≡ run later (run chunks buffer)
run-replayed chunks later buffer =
    run_stale chunks (run later (run chunks buffer)) (keep chunks (run-Passed chunks buffer))
  where
    keep :
        (seen : List ResponseChunk)
        → All (Passed (run chunks buffer)) seen
        → All (Passed (run later (run chunks buffer))) seen
    keep [] h = tt
    keep (c ∷ cs) (here, rest) = (run_keeps-Passed later c (run chunks buffer) here, keep cs rest)

run_ended :
    (chunks : List ResponseChunk) (buffer : ResponseBuffer)
    → buffer.ended ≡ true
    → run chunks buffer ≡ buffer
unfolding run
run_ended [] buffer e = refl
run_ended (c ∷ cs) buffer e =
    ap (λ r. run cs r.0) (accept_stale c buffer (inr (inl e))) ∙ run_ended cs buffer e

-- A settled buffer is final: no chunk that comes after the settlement changes it.
pub run-settle :
    (chunks : List ResponseChunk) (final : String) (buffer : ResponseBuffer)
    → run chunks (settle final buffer).0 ≡ (settle final buffer).0
unfolding settle
run-settle chunks final buffer = run_ended chunks (settle final buffer).0 refl
