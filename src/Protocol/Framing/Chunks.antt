-- ===== src/Protocol/Framing/Chunks.antt =====
-- The frame decoder over a stream: it answers every call, and the pieces in which the bytes arrive do not
-- matter.
use advanced_distributed_sys.Base.{
  ℕ, suc, ◌+◌, ◌<◌, ◌≡◌, refl, sym, ap, ◌∙◌, List, [], ◌∷◌, ◌++◌, Option, none, some, Result, ok,
  raise, Error, length, append_assoc, append-nil, arith,
}
use advanced_distributed_sys.Protocol.Message.{Bytes, Message, MessageType}
use advanced_distributed_sys.Protocol.Framing.{
  partial, front, header_size, Outcome, feed_loop, feed, one_round,
}
use advanced_distributed_sys.Protocol.Framing.Rounds.{front-partial}
use advanced_distributed_sys.Protocol.Framing.Loop.{
  prepend_all, prepend_all-raise, prepend_all-ok, feed_loop-Ends, feed_loop-feed, feed_loop-partial,
  feed_loop-ok, feed_loop-raise,
}

abbrev pub concat : List Bytes → Bytes
concat [] = []
concat (c ∷ chunks) = c ++ concat chunks

-- what a reader of the stream gets: the messages with the bytes that are left, or the exception
abbrev pub answer : Option Outcome → Option (Result (Bytes × List Message))
answer none = none
answer (some (buffer, ok ms)) = some (ok (buffer, ms))
answer (some (buffer, raise e)) = some (raise e)

-- the messages of a call, and those of the calls behind it
unfoldable pub fed : Option Outcome → (Bytes → Option Outcome) → Option Outcome
fed none later = none
fed (some (buffer, raise e)) later = some (buffer, raise e)
fed (some (buffer, ok ms)) later = elim (later buffer) [
  | none ↦ none
  | some o ↦ some (prepend_all ms o)
]

module _ (max_frame_size : ℕ) (decode : MessageType → Bytes → Result Message) where
  -- The calls of `feed` for the pieces of a stream, up to the first that raises, with the messages of
  -- all of them.
  unfoldable pub feed_all : Bytes → List Bytes → Option Outcome
  unfolding fed
  feed_all buffer [] = some (buffer, ok [])
  feed_all buffer (c ∷ chunks) = fed (feed max_frame_size decode buffer c) (λ b. feed_all b chunks)

  -- Whatever it is fed, the loop of the decoder ends: as many rounds as there are bytes, and one more,
  -- are enough, and more of them give the same outcome.
  pub feed_ends :
      (buffer received : Bytes) (rounds : ℕ)
      → length (buffer ++ received) < rounds
      → (o : Outcome) × (feed max_frame_size decode buffer received ≡ some o)
        × (feed_loop max_frame_size decode rounds (buffer ++ received) ≡ some o)
  feed_ends buffer received rounds h =
      let (o, e) = feed_loop-Ends max_frame_size decode rounds (buffer ++ received) h in
      (o, feed_loop-feed max_frame_size decode rounds buffer received e, e)

  feed-none :
      (buffer : Bytes)
      → front max_frame_size buffer ≡ partial
      → feed max_frame_size decode buffer [] ≡ some (buffer, ok [])
  unfolding feed feed_loop one_round
  feed-none buffer p = rw (append-nil buffer, p) refl

  feed-partial :
      (buffer c rest : Bytes) (ms : List Message)
      → feed max_frame_size decode buffer c ≡ some (rest, ok ms)
      → front max_frame_size rest ≡ partial
  unfolding feed
  feed-partial buffer c rest ms h =
      feed_loop-partial max_frame_size decode (suc (length (buffer ++ c))) (buffer ++ c) rest ms h

  -- What a decoder keeps after a call that raises nothing is shorter than a header and the largest
  -- body that it allows.
  pub feed_bound :
      (buffer c rest : Bytes) (ms : List Message)
      → feed max_frame_size decode buffer c ≡ some (rest, ok ms)
      → length rest < header_size + max_frame_size
  feed_bound buffer c rest ms h =
      front-partial max_frame_size rest (feed-partial buffer c rest ms h)

  feed-raise :
      (buffer c rest more : Bytes) (x : Error)
      → feed max_frame_size decode buffer c ≡ some (rest, raise x)
      → feed max_frame_size decode buffer (c ++ more) ≡ some (rest ++ more, raise x)
  unfolding feed
  feed-raise buffer c rest more x h =
      feed_loop-feed max_frame_size decode (suc (length (buffer ++ c))) buffer (c ++ more) (
        ap (feed_loop max_frame_size decode (suc (length (buffer ++ c))))
          (sym (append_assoc buffer c more))
        ∙ feed_loop-raise max_frame_size decode (suc (length (buffer ++ c))) (buffer ++ c) rest more
            x h)

  feed-ok :
      (buffer c rest more : Bytes) (ms : List Message) {o : Outcome}
      → feed max_frame_size decode buffer c ≡ some (rest, ok ms)
      → feed max_frame_size decode rest more ≡ some o
      → feed max_frame_size decode buffer (c ++ more) ≡ some (prepend_all ms o)
  unfolding feed
  feed-ok buffer c rest more ms h k =
      let n = suc (length (buffer ++ c)) in
      let m = suc (length (rest ++ more)) in
      feed_loop-feed max_frame_size decode (n + m) buffer (c ++ more) (
        ap (feed_loop max_frame_size decode (n + m)) (sym (append_assoc buffer c more))
        ∙ feed_loop-ok max_frame_size decode n m (n + m) (buffer ++ c) rest more ms (omega arith) h
            k)

  -- messages in front of two outcomes with one answer
  answer-prepend_all :
      (ms : List Message) (o o' : Option Outcome)
      → answer o ≡ answer o'
      → answer (fed (some ([], ok ms)) (λ _. o)) ≡ answer (fed (some ([], ok ms)) (λ _. o'))
  unfolding fed
  answer-prepend_all ms none none h = refl
  answer-prepend_all ms none (some (b, ok ns)) h = absurd cc
  answer-prepend_all ms none (some (b, raise x)) h = absurd cc
  answer-prepend_all ms (some (b, ok ns)) none h = absurd cc
  answer-prepend_all ms (some (b, raise x)) none h = absurd cc
  answer-prepend_all ms (some (b, ok ns)) (some (b', raise y)) h = absurd cc
  answer-prepend_all ms (some (b, raise x)) (some (b', ok ns)) h = absurd cc
  answer-prepend_all ms (some (b, raise x)) (some (b', raise y)) h =
      rw (prepend_all-raise ms b x, prepend_all-raise ms b' y) h
  answer-prepend_all ms (some (b, ok ns)) (some (b', ok ns')) h =
      let i : b ≡ b' = cc in
      let j : ns ≡ ns' = cc in rw (prepend_all-ok ms b ns, prepend_all-ok ms b' ns', i, j) refl

  -- A decoder that holds no whole frame gives the same messages and leaves the same bytes, or raises
  -- the same exception, whether it is fed a stream at once or in any pieces.
  pub answer-feed_all :
      (chunks : List Bytes) (buffer : Bytes)
      → front max_frame_size buffer ≡ partial
      → answer (feed_all buffer chunks) ≡ answer (feed max_frame_size decode buffer (concat chunks))
  unfolding feed_all fed
  answer-feed_all [] buffer p = rw (feed-none buffer p) refl
  answer-feed_all (c ∷ chunks) buffer p =
      let (o, e, _) = feed_ends buffer c (suc (length (buffer ++ c))) (omega arith) in
      go o e (λ b q. answer-feed_all chunks b q)
    where
      go :
          (o : Outcome)
          → feed max_frame_size decode buffer c ≡ some o
          → ((b : Bytes)
              → front max_frame_size b ≡ partial
              → answer (feed_all b chunks) ≡ answer (feed max_frame_size decode b (concat chunks)))
          → answer (feed_all buffer (c ∷ chunks))
            ≡ answer (feed max_frame_size decode buffer (c ++ concat chunks))
      go (b, raise x) e ih = rw (e, feed-raise buffer c b (concat chunks) x e) refl
      go (b, ok ms) e ih =
          let (o, h, _) =
            feed_ends b (concat chunks) (suc (length (b ++ concat chunks))) (omega arith) in
          rw (e, feed-ok buffer c b (concat chunks) ms e h)
            (answer-prepend_all ms (feed_all b chunks) (some o)
              (ih b (feed-partial buffer c b ms e) ∙ ap answer h))
