-- ===== src/Tests/Encoding.antt =====
-- An encoding of the stored values as lists of numbers: a codec whose round trips hold.
use advanced_distributed_sys.Base.{
  ℕ, zero, suc, ◌≡◌, refl, sym, ap, ◌∙◌, List, [], ◌∷◌, ◌++◌, Option, none, some, Result, ok, raise,
  value_error, length, append_assoc, append-nil, ◌>>=◌,
}
use advanced_distributed_sys.Order.{Str}
use advanced_distributed_sys.Causal.Actor.{CausalActor, Dot}
use advanced_distributed_sys.Causal.Version.{VersionVector}
use advanced_distributed_sys.Storage.Entry.{
  CrdtType, gcounter, pncounter, orset, mvregister, CrdtState, of_gcounter, of_pncounter, of_orset,
  of_mvregister, StoredCrdtEntry,
}
use advanced_distributed_sys.Storage.Entry.{type_of}
use advanced_distributed_sys.Storage.Entry.Merging
use advanced_distributed_sys.Crdt.GCounter.{GCounter}
use advanced_distributed_sys.Crdt.PnCounter.{PnCounter}
use advanced_distributed_sys.Crdt.OrSet.{OrSet}
use advanced_distributed_sys.Crdt.MvRegister.{MvRegister}
use advanced_distributed_sys.Persistence.Repository.{Codec, RoundTrips, EncodedCrdtEntry}

pub record Enc (A : Type 0) : Type 0 where
  pub enc : A → Str
  pub dec : Str → Option (A × Str)
  pub law : (a : A) (rest : Str) → dec (enc a ++ rest) ≡ some (a, rest)

abbrev then_dec :
    {A B : Type 0} → Option (A × Str) → (A → Str → Option (B × Str)) → Option (B × Str)
then_dec none f = none
then_dec (some (a, rest)) f = f a rest

abbrev nat_dec : Str → Option (ℕ × Str)
nat_dec [] = none
nat_dec (n ∷ rest) = some (n, rest)

abbrev nat_enc : Enc ℕ
nat_enc = record { enc = λ n. n ∷ []; dec = nat_dec; law = λ n rest. refl }

abbrev unit_enc : Enc (Unit {0})
unit_enc = record { enc = λ _. []; dec = λ s. some (tt, s); law = λ u rest. refl }

module _ {A B : Type 0} (a : Enc A) (b : Enc B) where
  abbrev pair_dec : Str → Option ((A × B) × Str)
  pair_dec s = then_dec (a.dec s) (λ x r. then_dec (b.dec r) (λ y r'. some ((x, y), r')))

  pub pair_law :
      (x : A) (y : B) (rest : Str) → pair_dec ((a.enc x ++ b.enc y) ++ rest) ≡ some ((x, y), rest)
  pair_law x y rest =
      ap pair_dec (append_assoc (a.enc x) (b.enc y) rest)
      ∙ rw (a.law x (b.enc y ++ rest), b.law y rest) refl

  abbrev pair_enc : Enc (A × B)
  pair_enc = record {
    enc = λ p. a.enc p.0 ++ b.enc p.1;
    dec = pair_dec;
    law = λ p rest. pair_law p.0 p.1 rest;
  }

module _ {A : Type 0} (a : Enc A) where
  abbrev enc_all : List A → Str
  enc_all [] = []
  enc_all (x ∷ xs) = a.enc x ++ enc_all xs

  abbrev dec_all : ℕ → Str → Option (List A × Str)
  dec_all zero s = some ([], s)
  dec_all (suc n) s =
      then_dec (a.dec s) (λ x r. then_dec (dec_all n r) (λ xs r'. some (x ∷ xs, r')))

  abbrev list_dec : Str → Option (List A × Str)
  list_dec [] = none
  list_dec (n ∷ s) = dec_all n s

  pub all_law :
      (xs : List A) (rest : Str) → dec_all (length xs) (enc_all xs ++ rest) ≡ some (xs, rest)
  all_law [] rest = refl
  all_law (x ∷ xs) rest =
      ap (dec_all (suc (length xs))) (append_assoc (a.enc x) (enc_all xs) rest)
      ∙ rw (a.law x (enc_all xs ++ rest), all_law xs rest) refl

  abbrev list_enc : Enc (List A)
  list_enc = record { enc = λ xs. length xs ∷ enc_all xs; dec = list_dec; law = all_law }

-- what is encoded as something else
abbrev via :
    {A B : Type 0} → Enc A → (to : B → A) (from : A → B) → ((b : B) → from (to b) ≡ b) → Enc B
via a to from back = record {
  enc = λ b. a.enc (to b);
  dec = λ s. then_dec (a.dec s) (λ x r. some (from x, r));
  law = λ b rest. rw (a.law (to b) rest, back b) refl;
}

abbrev str_enc : Enc Str
str_enc = list_enc nat_enc

abbrev actor_enc : Enc CausalActor
actor_enc =
    via (pair_enc str_enc nat_enc) (λ a. (a.node_id, a.incarnation))
      (λ p. record { node_id = p.0; incarnation = p.1 }) (λ a. refl)

abbrev dot_enc : Enc Dot
dot_enc =
    via (pair_enc actor_enc nat_enc) (λ d. (d.actor, d.counter))
      (λ p. record { actor = p.0; counter = p.1 }) (λ d. refl)

abbrev counts_enc : Enc (List (CausalActor × ℕ))
counts_enc = list_enc (pair_enc actor_enc nat_enc)

abbrev vector_enc : Enc VersionVector
vector_enc = via counts_enc (λ v. v.entries) (λ m. record { entries = m }) (λ v. refl)

abbrev dots_enc : Enc (List (Dot × Unit {0}))
dots_enc = list_enc (pair_enc dot_enc unit_enc)

abbrev gcounter_enc : Enc GCounter
gcounter_enc = via counts_enc (λ g. g.components) (λ m. record { components = m }) (λ g. refl)

abbrev pncounter_enc : Enc PnCounter
pncounter_enc =
    via (pair_enc gcounter_enc gcounter_enc) (λ c. (c.positive, c.negative))
      (λ p. record { positive = p.0; negative = p.1 }) (λ c. refl)

abbrev orset_enc : Enc OrSet
orset_enc =
    via (pair_enc (list_enc (pair_enc str_enc dots_enc)) dots_enc) (λ s. (s.adds, s.removed))
      (λ p. record { adds = p.0; removed = p.1 }) (λ s. refl)

abbrev mvregister_enc : Enc MvRegister
mvregister_enc =
    via (pair_enc (list_enc (pair_enc dot_enc str_enc)) dots_enc) (λ r. (r.entries, r.superseded))
      (λ p. record { entries = p.0; superseded = p.1 }) (λ r. refl)

-- a state by the type that it is stored under
abbrev state_text : CrdtState → Str
state_text (of_gcounter g) = gcounter_enc.enc g
state_text (of_pncounter c) = pncounter_enc.enc c
state_text (of_orset s) = orset_enc.enc s
state_text (of_mvregister r) = mvregister_enc.enc r

abbrev type_text : CrdtType → Str
type_text gcounter = 1 ∷ []
type_text pncounter = 1 ∷ 1 ∷ []
type_text orset = 1 ∷ 1 ∷ 1 ∷ []
type_text mvregister = []

abbrev of_dec : {A : Type 0} → Option (A × Str) → Result A
of_dec none = raise value_error
of_dec (some (a, rest)) = ok a

abbrev text_type : Str → CrdtType
text_type [] = mvregister
text_type (x ∷ []) = gcounter
text_type (x ∷ y ∷ []) = pncounter
text_type (x ∷ y ∷ z ∷ s) = orset

abbrev read_state : CrdtType → Str → Result CrdtState
read_state gcounter s = of_dec (gcounter_enc.dec s) >>= λ g. ok (of_gcounter g)
read_state pncounter s = of_dec (pncounter_enc.dec s) >>= λ c. ok (of_pncounter c)
read_state orset s = of_dec (orset_enc.dec s) >>= λ c. ok (of_orset c)
read_state mvregister s = of_dec (mvregister_enc.dec s) >>= λ c. ok (of_mvregister c)

whole : {A : Type 0} (a : Enc A) (x : A) → of_dec (a.dec (a.enc x)) ≡ ok x
whole a x = ap (λ (s : Str). of_dec (a.dec s)) (sym (append-nil (a.enc x))) ∙ rw (a.law x []) refl

read_state-state_text : (x : CrdtState) → read_state (type_of x) (state_text x) ≡ ok x
read_state-state_text (of_gcounter g) = rw (whole gcounter_enc g) refl
read_state-state_text (of_pncounter c) = rw (whole pncounter_enc c) refl
read_state-state_text (of_orset s) = rw (whole orset_enc s) refl
read_state-state_text (of_mvregister r) = rw (whole mvregister_enc r) refl

text_type-type_text : (t : CrdtType) → text_type (type_text t) ≡ t
text_type-type_text gcounter = refl
text_type-type_text pncounter = refl
text_type-type_text orset = refl
text_type-type_text mvregister = refl

abbrev columns : StoredCrdtEntry → EncodedCrdtEntry
columns e = record {
  key = e.key;
  crdt_type = type_text e.crdt_type;
  state_json = state_text e.state;
  state_version_json = vector_enc.enc e.state_version;
  causal_context_json = vector_enc.enc e.causal_context;
}

abbrev read_columns : EncodedCrdtEntry → Result StoredCrdtEntry
read_columns row = do
  state ← read_state (text_type row.crdt_type) row.state_json
  state_version ← of_dec (vector_enc.dec row.state_version_json)
  causal_context ← of_dec (vector_enc.dec row.causal_context_json)
  ok (record {
    key = row.key;
    crdt_type = text_type row.crdt_type;
    state = state;
    state_version = state_version;
    causal_context = causal_context;
  })

abbrev pub number_codec : Codec
number_codec = record {
  encode_version_vector = vector_enc.enc;
  decode_version_vector = λ s. of_dec (vector_enc.dec s);
  encode_entry = λ e. ok (columns e);
  decode_entry = read_columns;
}

read_columns-columns : (e : StoredCrdtEntry) → Merging.IsValid e → read_columns (columns e) ≡ ok e
read_columns-columns e v =
    let state : read_state (text_type (type_text e.crdt_type)) (state_text e.state) ≡ ok e.state =
      ap (λ t. read_state t (state_text e.state)) (text_type-type_text e.crdt_type ∙ v.typed)
      ∙ read_state-state_text e.state in
    rw
      (
        state,
        whole vector_enc e.state_version,
        whole vector_enc e.causal_context,
        text_type-type_text e.crdt_type,
      )
      refl

pub number_codec-RoundTrips : RoundTrips number_codec
number_codec-RoundTrips = record {
  vectors = λ v h. whole vector_enc v;
  entries = λ e h. (columns e, refl, refl, read_columns-columns e h);
}
