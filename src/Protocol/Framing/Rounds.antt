-- ===== src/Protocol/Framing/Rounds.antt =====
-- What one round of the frame decoder finds: how it depends on the bytes at the front, and how many
-- it takes.
use advanced_distributed_sys.Base.{
  ℕ, zero, suc, ◌+◌, ◌<◌, ◌≤◌, ◌≡◌, refl, ap, ◌∙◌, [], ◌∷◌, ◌++◌, Option, none, some, Result, ok,
  raise, Error, length, length-append, append_assoc, arith,
}
use mathlib.Core.Path.{subst}
use advanced_distributed_sys.Protocol.Message.{Bytes, MessageType}
use advanced_distributed_sys.Protocol.Framing.{
  Header, unpack, validate_header, split_exact, header_size, Front, partial, invalid, framed,
  body_front, valid_front, header_front, front,
}

-- what `split_exact` finds is in front of what it leaves
abbrev pub Cut : ℕ → Bytes → Option (Bytes × Bytes) → Type 0
Cut n bs none = length bs < n
Cut n bs (some (h, r)) = (bs ≡ h ++ r) × (length h ≡ n)

pub split_exact-Cut : (n : ℕ) (bs : Bytes) → Cut n bs (split_exact n bs)
unfolding split_exact
split_exact-Cut zero bs = (refl, refl)
split_exact-Cut (suc n) [] = omega arith
split_exact-Cut (suc n) (b ∷ bs) = ground (arith, split_exact-Cut n bs)

pub split_exact-eq :
    (n : ℕ) (bs : Bytes) {h r : Bytes}
    → split_exact n bs ≡ some (h, r)
    → (bs ≡ h ++ r) × (length h ≡ n)
split_exact-eq n bs e = subst (Cut n bs) e (split_exact-Cut n bs)

pub split_exact-none : (n : ℕ) (bs : Bytes) → split_exact n bs ≡ none → length bs < n
split_exact-none n bs e = subst (Cut n bs) e (split_exact-Cut n bs)

pub split_exact-append : (n : ℕ) (h r : Bytes) → length h ≡ n → split_exact n (h ++ r) ≡ some (h, r)
unfolding split_exact
split_exact-append zero [] r e = refl
split_exact-append zero (b ∷ h) r e = absurd omega arith
split_exact-append (suc n) [] r e = absurd omega arith
split_exact-append (suc n) (b ∷ h) r e = rw (split_exact-append n h r (omega arith)) refl

-- What was found stays so when more bytes come behind.
pub split_exact_more :
    (n : ℕ) (bs more : Bytes) {h r : Bytes}
    → split_exact n bs ≡ some (h, r)
    → split_exact n (bs ++ more) ≡ some (h, r ++ more)
split_exact_more n bs more {h} {r} e =
    let (i, l) = split_exact-eq n bs e in
    ap (λ (x : Bytes). split_exact n (x ++ more)) i
    ∙ ap (λ (x : Bytes). split_exact n x) (append_assoc h r more)
    ∙ split_exact-append n h (r ++ more) l

-- a header that passes has a body
pub validate_header-positive :
    (max_frame_size : ℕ) (h : Header) {t : MessageType}
    → validate_header max_frame_size h ≡ ok t
    → (0 < h.body_length) × (h.body_length ≤ max_frame_size)
unfolding validate_header
validate_header-positive max_frame_size h e = ground arith

-- `buffer` begins with a frame of this type and body, and `rest` is behind it
pub record Framed (max_frame_size : ℕ) (buffer : Bytes) (t : MessageType) (body rest : Bytes)
    : Type 0 where
  pub header : Bytes
  pub after_header : Bytes
  pub fields : Header
  pub cut : split_exact header_size buffer ≡ some (header, after_header)
  pub unpacked : unpack header ≡ ok fields
  pub valid : validate_header max_frame_size fields ≡ ok t
  pub body_cut : split_exact fields.body_length after_header ≡ some (body, rest)

pub front-Framed :
    {max_frame_size : ℕ} {buffer : Bytes} {t : MessageType} {body rest : Bytes}
    → Framed max_frame_size buffer t body rest
    → front max_frame_size buffer ≡ framed t body rest
unfolding front header_front
front-Framed f = rw (f.cut, f.unpacked, f.valid) (rw (body_front, f.body_cut) refl)

-- a found frame, as facts on the bytes
abbrev Found : ℕ → Bytes → Front → Type 0
Found max_frame_size buffer partial = length buffer < header_size + max_frame_size
Found max_frame_size buffer (invalid e) =
    (more : Bytes) → front max_frame_size (buffer ++ more) ≡ invalid e
Found max_frame_size buffer (framed t body rest) = Framed max_frame_size buffer t body rest

front-Found :
    (max_frame_size : ℕ) (buffer : Bytes)
    → Found max_frame_size buffer (front max_frame_size buffer)
unfolding front header_front valid_front body_front
front-Found max_frame_size buffer = go (split_exact header_size buffer) refl
  where
    bodies :
        (header after_header : Bytes) (h : Header) (t : MessageType) (o : Option (Bytes × Bytes))
        → split_exact header_size buffer ≡ some (header, after_header)
        → unpack header ≡ ok h
        → validate_header max_frame_size h ≡ ok t
        → split_exact h.body_length after_header ≡ o
        → Found max_frame_size buffer (body_front t h.body_length after_header)
    bodies header after_header h t none e u v b =
        let (i, l) = split_exact-eq header_size buffer e in
        rw (body_front, b)
          (omega (
            arith,
            l,
            ap (λ (x : Bytes). length x) i,
            length-append header after_header,
            split_exact-none h.body_length after_header b,
            validate_header-positive max_frame_size h v,
          ))
    bodies header after_header h t (some (body, rest)) e u v b =
        rw (body_front, b)
          record {
            header = header;
            after_header = after_header;
            fields = h;
            cut = e;
            unpacked = u;
            valid = v;
            body_cut = b;
          }

    typed :
        (header after_header : Bytes) (h : Header) (r : Result MessageType)
        → split_exact header_size buffer ≡ some (header, after_header)
        → unpack header ≡ ok h
        → validate_header max_frame_size h ≡ r
        → Found max_frame_size buffer (valid_front r h.body_length after_header)
    typed header after_header h (raise x) e u v = λ more.
        rw (front, split_exact_more header_size buffer more e, u) (rw (header_front, v) refl)
    typed header after_header h (ok t) e u v =
        bodies header after_header h t (split_exact h.body_length after_header) e u v refl

    headed :
        (header after_header : Bytes) (r : Result Header)
        → split_exact header_size buffer ≡ some (header, after_header)
        → unpack header ≡ r
        → Found max_frame_size buffer (header_front max_frame_size r after_header)
    headed header after_header (raise x) e u =
        λ more. rw (front, split_exact_more header_size buffer more e, u) refl
    headed header after_header (ok h) e u =
        typed header after_header h (validate_header max_frame_size h) e u refl

    go :
        (o : Option (Bytes × Bytes))
        → split_exact header_size buffer ≡ o
        → Found max_frame_size buffer (front max_frame_size buffer)
    go none e = rw (front, e) (omega (arith, split_exact-none header_size buffer e))
    go (some (header, after_header)) e =
        rw (front, e) (headed header after_header (unpack header) e refl)

pub framed-Framed :
    (max_frame_size : ℕ) (buffer : Bytes) {t : MessageType} {body rest : Bytes}
    → front max_frame_size buffer ≡ framed t body rest
    → Framed max_frame_size buffer t body rest
framed-Framed max_frame_size buffer e =
    subst (Found max_frame_size buffer) e (front-Found max_frame_size buffer)

-- A header that raises does so whatever comes behind it, and a frame stays the frame that it is.
pub front-invalid :
    (max_frame_size : ℕ) (buffer : Bytes) {e : Error} (more : Bytes)
    → front max_frame_size buffer ≡ invalid e
    → front max_frame_size (buffer ++ more) ≡ invalid e
front-invalid max_frame_size buffer more i =
    subst (Found max_frame_size buffer) i (front-Found max_frame_size buffer) more

Framed-more :
    {max_frame_size : ℕ} {buffer : Bytes} {t : MessageType} {body rest : Bytes} (more : Bytes)
    → Framed max_frame_size buffer t body rest
    → Framed max_frame_size (buffer ++ more) t body (rest ++ more)
Framed-more {buffer = buffer} more f = record {
  header = f.header;
  after_header = f.after_header ++ more;
  fields = f.fields;
  cut = split_exact_more header_size buffer more f.cut;
  unpacked = f.unpacked;
  valid = f.valid;
  body_cut = split_exact_more f.fields.body_length f.after_header more f.body_cut;
}

pub front-framed :
    (max_frame_size : ℕ) (buffer : Bytes) {t : MessageType} {body rest : Bytes} (more : Bytes)
    → front max_frame_size buffer ≡ framed t body rest
    → front max_frame_size (buffer ++ more) ≡ framed t body (rest ++ more)
front-framed max_frame_size buffer more e =
    front-Framed (Framed-more more (framed-Framed max_frame_size buffer e))

-- a frame has nine bytes at least
pub framed-shorter :
    (max_frame_size : ℕ) (buffer : Bytes) {t : MessageType} {body rest : Bytes}
    → front max_frame_size buffer ≡ framed t body rest
    → length rest + 8 < length buffer
framed-shorter max_frame_size buffer {t} {body} {rest} e =
    let f = framed-Framed max_frame_size buffer e in
    let (i, l) = split_exact-eq header_size buffer f.cut in
    let (j, n) = split_exact-eq f.fields.body_length f.after_header f.body_cut in
    omega (
      arith,
      l,
      n,
      ap (λ (x : Bytes). length x) i,
      ap (λ (x : Bytes). length x) j,
      length-append f.header f.after_header,
      length-append body rest,
      validate_header-positive max_frame_size f.fields f.valid,
    )

pub front-partial :
    (max_frame_size : ℕ) (buffer : Bytes)
    → front max_frame_size buffer ≡ partial
    → length buffer < header_size + max_frame_size
front-partial max_frame_size buffer e =
    subst (Found max_frame_size buffer) e (front-Found max_frame_size buffer)
