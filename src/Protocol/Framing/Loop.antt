-- ===== src/Protocol/Framing/Loop.antt =====
-- The loop of the frame decoder: that it ends, and what more bytes behind the buffer change.
use advanced_distributed_sys.Base.{
  ℕ, zero, suc, ◌+◌, ◌<◌, ◌≤◌, ◌≡◌, refl, sym, ap, ◌∙◌, List, [], ◌∷◌, ◌++◌, Option, none, some,
  Result, ok, raise, Error, length, arith, ◌⊎◌, inl, inr,
}
use mathlib.Core.Path.{subst}
use advanced_distributed_sys.Protocol.Message.{Bytes, Message, MessageType}
use advanced_distributed_sys.Protocol.Framing.{
  Front, partial, invalid, framed, front, Outcome, prepend, decoded, one_round, feed_loop, feed,
}
use advanced_distributed_sys.Protocol.Framing.Rounds.{front-invalid, front-framed, framed-shorter}

-- messages that were found before
abbrev pub prepend_all : List Message → Outcome → Outcome
prepend_all [] o = o
prepend_all (m ∷ ms) o = let later = prepend_all ms o in prepend m later

pub prepend_all-raise :
    (ms : List Message) (b : Bytes) (e : Error) → prepend_all ms (b, raise e) ≡ (b, raise e)
unfolding prepend
prepend_all-raise [] b e = refl
prepend_all-raise (m ∷ ms) b e = ap (prepend m) (prepend_all-raise ms b e)

pub prepend_all-ok :
    (ms : List Message) (b : Bytes) (ns : List Message)
    → prepend_all ms (b, ok ns) ≡ (b, ok (ms ++ ns))
unfolding prepend
prepend_all-ok [] b ns = refl
prepend_all-ok (m ∷ ms) b ns = ap (prepend m) (prepend_all-ok ms b ns)

decoded-ok :
    (r : Result Message) (rest0 rest : Bytes) (o : Option Outcome) (ms : List Message)
    → decoded r rest0 o ≡ some (rest, ok ms)
    → (m : Message) × (ns : List Message) × (r ≡ ok m) × (o ≡ some (rest, ok ns)) × (ms ≡ m ∷ ns)
unfolding decoded prepend
decoded-ok (raise e) rest0 rest o ms h = absurd cc
decoded-ok (ok m) rest0 rest none ms h = absurd cc
decoded-ok (ok m) rest0 rest (some (b, raise e)) ms h = absurd cc
decoded-ok (ok m) rest0 rest (some (b, ok ns)) ms h = (m, ns, refl, cc, cc)

decoded-raise :
    (r : Result Message) (rest0 rest : Bytes) (o : Option Outcome) (e : Error)
    → decoded r rest0 o ≡ some (rest, raise e)
    → ((r ≡ raise e) × (rest ≡ rest0)) ⊎ ((m : Message) × (r ≡ ok m) × (o ≡ some (rest, raise e)))
unfolding decoded prepend
decoded-raise (raise x) rest0 rest o e h = inl (cc, cc)
decoded-raise (ok m) rest0 rest none e h = absurd cc
decoded-raise (ok m) rest0 rest (some (b, raise x)) e h = inr (m, refl, cc)
decoded-raise (ok m) rest0 rest (some (b, ok ns)) e h = absurd cc

decoded-some :
    (r : Result Message) (rest : Bytes) (o o' : Option Outcome) {x : Outcome}
    → ((y : Outcome) → o ≡ some y → o' ≡ some y)
    → decoded r rest o ≡ some x
    → decoded r rest o' ≡ some x
unfolding decoded
decoded-some (raise e) rest o o' f h = h
decoded-some (ok m) rest none o' f h = absurd cc
decoded-some (ok m) rest (some y) o' f h = rw (f y refl) h

abbrev Ends : Option Outcome → Type 0
Ends o = (outcome : Outcome) × (o ≡ some outcome)

decoded-Ends :
    (r : Result Message) (rest : Bytes) (o : Option Outcome) → Ends o → Ends (decoded r rest o)
unfolding decoded
decoded-Ends (raise e) rest o h = ((rest, raise e), refl)
decoded-Ends (ok m) rest o (outcome, h) = (prepend m outcome, rw h refl)

module _ (max_frame_size : ℕ) (decode : MessageType → Bytes → Result Message) where
  abbrev round : Front → Bytes → (Bytes → Option Outcome) → Option Outcome
  round = one_round max_frame_size decode

  one_round-some :
      (f : Front) (buffer : Bytes) (k k' : Bytes → Option Outcome) {x : Outcome}
      → ((rest : Bytes) (y : Outcome) → k rest ≡ some y → k' rest ≡ some y)
      → round f buffer k ≡ some x
      → round f buffer k' ≡ some x
  unfolding one_round
  one_round-some partial buffer k k' g h = h
  one_round-some (invalid e) buffer k k' g h = h
  one_round-some (framed t body rest) buffer k k' g h =
      decoded-some (decode t body) rest (k rest) (k' rest) (g rest) h

  one_round-Ends :
      (f : Front) (buffer : Bytes) (k : Bytes → Option Outcome)
      → ((t : MessageType) (body rest : Bytes) → f ≡ framed t body rest → Ends (k rest))
      → Ends (round f buffer k)
  unfolding one_round
  one_round-Ends partial buffer k g = ((buffer, ok []), refl)
  one_round-Ends (invalid e) buffer k g = ((buffer, raise e), refl)
  one_round-Ends (framed t body rest) buffer k g =
      decoded-Ends (decode t body) rest (k rest) (g t body rest refl)

  -- more rounds change nothing
  pub feed_loop_more :
      (rounds rounds' : ℕ) (buffer : Bytes) {o : Outcome}
      → rounds ≤ rounds'
      → feed_loop max_frame_size decode rounds buffer ≡ some o
      → feed_loop max_frame_size decode rounds' buffer ≡ some o
  unfolding feed_loop
  feed_loop_more zero rounds' buffer l h = absurd cc
  feed_loop_more (suc rounds) zero buffer l h = absurd omega arith
  feed_loop_more (suc rounds) (suc rounds') buffer l h =
      one_round-some (front max_frame_size buffer) buffer (feed_loop max_frame_size decode rounds)
        (feed_loop max_frame_size decode rounds')
        (λ rest y e. feed_loop_more rounds rounds' rest (omega arith) e) h

  -- The loop ends within as many rounds as there are bytes, and one more.
  pub feed_loop-Ends :
      (rounds : ℕ) (buffer : Bytes)
      → length buffer < rounds
      → (o : Outcome) × (feed_loop max_frame_size decode rounds buffer ≡ some o)
  unfolding feed_loop
  feed_loop-Ends zero buffer l = absurd omega arith
  feed_loop-Ends (suc rounds) buffer l =
      one_round-Ends (front max_frame_size buffer) buffer (feed_loop max_frame_size decode rounds)
        (λ t body rest e.
          feed_loop-Ends rounds rest (omega (arith, framed-shorter max_frame_size buffer e)))

  -- what any number of rounds gives is what `feed` gives
  pub feed_loop-feed :
      (rounds : ℕ) (buffer received : Bytes) {o : Outcome}
      → feed_loop max_frame_size decode rounds (buffer ++ received) ≡ some o
      → feed max_frame_size decode buffer received ≡ some o
  unfolding feed
  feed_loop-feed rounds buffer received {o} h =
      let all = buffer ++ received in
      let (o', e) = feed_loop-Ends (suc (length all)) all (omega arith) in
      let enough = rounds + suc (length all) in
      let same_outcome : some o' ≡ some o =
        sym (feed_loop_more (suc (length all)) enough all (omega arith) e)
        ∙ feed_loop_more rounds enough all (omega arith) h in
      e ∙ same_outcome

  -- the bytes that stay after a feed that raises nothing do not hold a whole frame
  pub feed_loop-partial :
      (rounds : ℕ) (buffer rest : Bytes) (ms : List Message)
      → feed_loop max_frame_size decode rounds buffer ≡ some (rest, ok ms)
      → front max_frame_size rest ≡ partial
  unfolding feed_loop one_round
  feed_loop-partial zero buffer rest ms h = absurd cc
  feed_loop-partial (suc rounds) buffer rest ms h =
      rounded (front max_frame_size buffer) refl (λ r ns e. feed_loop-partial rounds r rest ns e) h
    where
      rounded :
          (f : Front)
          → front max_frame_size buffer ≡ f
          → ((r : Bytes) (ns : List Message)
              → feed_loop max_frame_size decode rounds r ≡ some (rest, ok ns)
              → front max_frame_size rest ≡ partial)
          → round f buffer (feed_loop max_frame_size decode rounds) ≡ some (rest, ok ms)
          → front max_frame_size rest ≡ partial
      rounded partial e g i = cc
      rounded (invalid x) e g i = absurd cc
      rounded (framed t body r) e g i =
          let (m, ns, d, o, l) =
            decoded-ok (decode t body) r rest (feed_loop max_frame_size decode rounds r) ms i in
          g r ns o

  -- what comes after a feed that raised nothing is decoded behind the bytes that it left
  pub feed_loop-ok :
      (rounds later total : ℕ) (buffer rest more : Bytes) (ms : List Message) {o : Outcome}
      → rounds + later ≤ total
      → feed_loop max_frame_size decode rounds buffer ≡ some (rest, ok ms)
      → feed_loop max_frame_size decode later (rest ++ more) ≡ some o
      → feed_loop max_frame_size decode total (buffer ++ more) ≡ some (prepend_all ms o)
  unfolding feed_loop one_round decoded
  feed_loop-ok zero later total buffer rest more ms n h k = absurd cc
  feed_loop-ok (suc rounds) later zero buffer rest more ms n h k = absurd omega arith
  feed_loop-ok (suc rounds) later (suc total) buffer rest more ms {o} n h k =
      rounded (front max_frame_size buffer) refl
        (λ r ns e. feed_loop-ok rounds later total r rest more ns (omega arith) e k) h
    where
      rounded :
          (f : Front)
          → front max_frame_size buffer ≡ f
          → ((r : Bytes) (ns : List Message)
              → feed_loop max_frame_size decode rounds r ≡ some (rest, ok ns)
              → feed_loop max_frame_size decode total (r ++ more) ≡ some (prepend_all ns o))
          → round f buffer (feed_loop max_frame_size decode rounds) ≡ some (rest, ok ms)
          → feed_loop max_frame_size decode (suc total) (buffer ++ more) ≡ some (prepend_all ms o)
      rounded partial e g i =
          let unchanged : buffer ≡ rest = cc in
          let nothing : [] ≡ ms = cc in
          subst
            (λ (ns : List Message).
              feed_loop max_frame_size decode (suc total) (buffer ++ more)
              ≡ some (prepend_all ns o))
            nothing
            (feed_loop_more later (suc total) (buffer ++ more) (omega arith)
              (ap (λ (b : Bytes). feed_loop max_frame_size decode later (b ++ more)) unchanged ∙ k))
      rounded (invalid x) e g i = absurd cc
      rounded (framed t body r) e g i =
          let (m, ns, d, j, l) =
            decoded-ok (decode t body) r rest (feed_loop max_frame_size decode rounds r) ms i in
          rw (feed_loop, front-framed max_frame_size buffer more e, d) (rw (g r ns j, l) refl)

  -- an exception is raised whatever comes behind
  pub feed_loop-raise :
      (rounds : ℕ) (buffer rest more : Bytes) (x : Error)
      → feed_loop max_frame_size decode rounds buffer ≡ some (rest, raise x)
      → feed_loop max_frame_size decode rounds (buffer ++ more) ≡ some (rest ++ more, raise x)
  unfolding feed_loop one_round
  feed_loop-raise zero buffer rest more x h = absurd cc
  feed_loop-raise (suc rounds) buffer rest more x h =
      rounded (front max_frame_size buffer) refl (λ r e. feed_loop-raise rounds r rest more x e) h
    where
      rounded :
          (f : Front)
          → front max_frame_size buffer ≡ f
          → ((r : Bytes)
              → feed_loop max_frame_size decode rounds r ≡ some (rest, raise x)
              → feed_loop max_frame_size decode rounds (r ++ more) ≡ some (rest ++ more, raise x))
          → round f buffer (feed_loop max_frame_size decode rounds) ≡ some (rest, raise x)
          → feed_loop max_frame_size decode (suc rounds) (buffer ++ more)
            ≡ some (rest ++ more, raise x)
      rounded partial e g i = absurd cc
      rounded (invalid y) e g i = rw (feed_loop, front-invalid max_frame_size buffer more e) cc
      rounded (framed t body r) e g i =
          rw (feed_loop, front-framed max_frame_size buffer more e)
            (elim (decoded-raise (decode t body) r rest (feed_loop max_frame_size decode rounds r) x
              i) [ inl (d, l) ↦ rw (d, l) refl | inr (m, d, j) ↦ rw (d, g r j) refl ])
