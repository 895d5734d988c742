-- ===== src/Protocol/Framing/RoundTrip.antt =====
-- Frames that are written are read back, whatever pieces they arrive in.
use advanced_distributed_sys.Base.{
  ℕ, suc, ◌+◌, ◌*◌, ◌/◌, ◌%◌, ◌^◌, ◌<◌, ◌≡◌, refl, ap, ◌∙◌, false, not, List, [], ◌∷◌, ◌++◌, some,
  Result, ok, ltb, ◌==◌, length, arith, ◌>>=◌, >>=-eq-ok, All, raise_if, ◌>>◌, invalid_frame_length,
  frame_too_large, struct_error,
}
use mathlib.Core.Path.{subst}
use advanced_distributed_sys.Protocol.Message.{Bytes, Message, type_of_code-type_code}
use advanced_distributed_sys.Protocol.Envelope.{
  Wire, EnvelopeFields, Parses, Addressed, is_empty, encode_envelope, decode_envelope,
  decode_envelope-encode_envelope,
}
use advanced_distributed_sys.Protocol.Framing.{
  Header, pack, unpack, validate_header, frame_header, header_size, encode_frame, split_exact,
  front, feed_loop, one_round, decoded, prepend, read_message, read_exactly,
}
use advanced_distributed_sys.Protocol.Framing.Rounds.{Framed, front-Framed, split_exact-append}
use advanced_distributed_sys.Protocol.Framing.Loop.{feed_loop-feed}
use advanced_distributed_sys.Protocol.Framing.Chunks.{concat, answer, feed_all, answer-feed_all}

unpack-pack : (h : Header) → h.body_length < 2 ^ 32 → unpack (pack h) ≡ ok h
unfolding unpack pack
unpack-pack h l =
    let n : h.body_length / 2 ^ 24 * 2 ^ 24
          + h.body_length / 2 ^ 16 % 2 ^ 8 * 2 ^ 16
          + h.body_length / 2 ^ 8 % 2 ^ 8 * 2 ^ 8
          + h.body_length % 2 ^ 8
        ≡ h.body_length =
      omega arith in
    rw n refl

-- the guards of `encode_frame` behind the envelope
guards_pass :
    (max_frame_size : ℕ) (m : Message) (body bs : Bytes)
    → (raise_if (is_empty body) invalid_frame_length
        >> (raise_if (ltb max_frame_size (length body)) frame_too_large
            >> (raise_if (not (ltb (length body) (2 ^ 32))) struct_error
                >> ok (pack (frame_header m body) ++ body))))
      ≡ ok bs
    → ((length body == 0) ≡ false)
      × (ltb max_frame_size (length body) ≡ false)
      × (length body < 2 ^ 32)
      × (bs ≡ pack (frame_header m body) ++ body)
guards_pass max_frame_size m [] bs h = absurd cc
guards_pass max_frame_size m (b ∷ body) bs h = ground arith

-- what a frame that was written is made of
record Written (max_frame_size : ℕ) (wire : Wire EnvelopeFields) (m : Message) (bs : Bytes)
    : Type 0 where
  pub body : Bytes
  pub envelope : encode_envelope wire m ≡ ok body
  pub positive : (length body == 0) ≡ false
  pub fits : ltb max_frame_size (length body) ≡ false
  pub short : length body < 2 ^ 32
  pub bytes : bs ≡ pack (frame_header m body) ++ body

encode_frame-Written :
    (max_frame_size : ℕ) (wire : Wire EnvelopeFields) (m : Message) (bs : Bytes)
    → encode_frame max_frame_size wire m ≡ ok bs
    → Written max_frame_size wire m bs
unfolding encode_frame
encode_frame-Written max_frame_size wire m bs h =
    let (body, e, k) = >>=-eq-ok (encode_envelope wire m) _ h in
    let (p, f, s, b) = guards_pass max_frame_size m body bs k in
    record { body = body; envelope = e; positive = p; fits = f; short = s; bytes = b }

header-valid :
    (max_frame_size : ℕ) (m : Message) (body : Bytes)
    → (length body == 0) ≡ false
    → ltb max_frame_size (length body) ≡ false
    → validate_header max_frame_size (frame_header m body) ≡ ok m.msg_type
unfolding validate_header
header-valid max_frame_size m body p f = rw (type_of_code-type_code m.msg_type, p, f) refl

Written-Framed :
    (max_frame_size : ℕ) (wire : Wire EnvelopeFields) (m : Message) (bs more : Bytes)
    → (w : Written max_frame_size wire m bs)
    → Framed max_frame_size (bs ++ more) m.msg_type w.body more
unfolding pack
Written-Framed max_frame_size wire m bs more w =
    let h = frame_header m w.body in
    record {
      header = pack h;
      after_header = w.body ++ more;
      fields = h;
      cut =
          ap (λ (b : Bytes). split_exact header_size (b ++ more)) w.bytes
          ∙ split_exact-append header_size (pack h) (w.body ++ more) (omega arith);
      unpacked = unpack-pack h w.short;
      valid = header-valid max_frame_size m w.body w.positive w.fits;
      body_cut = split_exact-append (length w.body) w.body more refl;
    }

-- the frames of messages, one behind the other
unfoldable pub encode_stream : ℕ → Wire EnvelopeFields → List Message → Result Bytes
encode_stream max_frame_size wire [] = ok []
encode_stream max_frame_size wire (m ∷ ms) = do
  bs ← encode_frame max_frame_size wire m
  more ← encode_stream max_frame_size wire ms
  ok (bs ++ more)

module _ (max_frame_size : ℕ) (wire : Wire EnvelopeFields) (parses : Parses wire) where
  -- the loop over the frames of a stream, with a round for each and one more
  loop_stream :
      (ms : List Message) (bs : Bytes)
      → All Addressed ms
      → encode_stream max_frame_size wire ms ≡ ok bs
      → feed_loop max_frame_size (decode_envelope wire) (suc (length ms)) bs ≡ some ([], ok ms)
  unfolding encode_stream feed_loop one_round decoded prepend front split_exact
  loop_stream [] bs a h =
      let nothing : [] ≡ bs = cc in
      subst (λ b. feed_loop max_frame_size (decode_envelope wire) 1 b ≡ some ([], ok [])) nothing
        refl
  loop_stream (m ∷ ms) bs a h =
      let (frame, e, k) = >>=-eq-ok (encode_frame max_frame_size wire m) _ h in
      let (more, i, j) = >>=-eq-ok (encode_stream max_frame_size wire ms) _ k in
      let w = encode_frame-Written max_frame_size wire m frame e in
      let whole : bs ≡ frame ++ more = cc in
      let decodes = decode_envelope-encode_envelope wire m w.body parses a.0 w.envelope in
      rw
        (
          whole,
          front-Framed (Written-Framed max_frame_size wire m frame more w),
          decodes,
          loop_stream ms more a.1 i,
        )
        refl

  -- What `encode_frame` wrote for addressed messages, one frame behind the other, and arrived in any
  -- pieces, a new decoder turns back into the messages, with no byte left; where protobuf parses what it
  -- serialized.
  pub feed_all-encode_stream :
      (ms : List Message) (chunks : List Bytes)
      → All Addressed ms
      → encode_stream max_frame_size wire ms ≡ ok (concat chunks)
      → answer (feed_all max_frame_size (decode_envelope wire) [] chunks) ≡ some (ok ([], ms))
  unfolding front split_exact
  feed_all-encode_stream ms chunks a h =
      answer-feed_all max_frame_size (decode_envelope wire) chunks [] refl
      ∙ ap answer (
          feed_loop-feed max_frame_size (decode_envelope wire) (suc (length ms)) [] (concat chunks)
            (loop_stream ms (concat chunks) a h))

  -- A frame that `encode_frame` wrote for an addressed message is read by `read_message` as the message,
  -- and the bytes behind it stay in the stream; where protobuf parses what it serialized.
  pub read_message-encode_frame :
      (m : Message) (bs more : Bytes)
      → Addressed m
      → encode_frame max_frame_size wire m ≡ ok bs
      → read_message max_frame_size (decode_envelope wire) (bs ++ more) ≡ ok (m, more)
  unfolding read_message read_exactly
  read_message-encode_frame m bs more a h =
      let w = encode_frame-Written max_frame_size wire m bs h in
      let f = Written-Framed max_frame_size wire m bs more w in
      rw
        (
          read_message,
          read_exactly,
          f.cut,
          f.unpacked,
          f.valid,
          f.body_cut,
          decode_envelope-encode_envelope wire m w.body parses a w.envelope,
        )
        refl
