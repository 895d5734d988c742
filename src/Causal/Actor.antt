-- ===== src/Causal/Actor.antt =====
-- causal/actor.py and causal/dot.py: the identities of actors and events, with the order of their
-- dataclasses.
use advanced_distributed_sys.Base.{
  ℕ, zero, suc, ◌≡◌, [], ◌∷◌, arith, Result, ok, raise, value_error,
}
use advanced_distributed_sys.Base.Int.{ℤ, pos, negsuc}
use advanced_distributed_sys.Order.{Ord, Str, key_cmp-IsTotal, nat_ord, pair_ord, list_ord}

pub record CausalActor : Type 0 where
  pub node_id : Str
  pub incarnation : ℕ

-- `CausalActor(node_id, incarnation)`, whose `__post_init__` may raise
unfoldable pub make_actor : Str → ℤ → Result CausalActor
make_actor [] incarnation = raise value_error
make_actor (c ∷ cs) (negsuc n) = raise value_error
make_actor (c ∷ cs) (pos n) = ok (record { node_id = c ∷ cs; incarnation = n })

abbrev pub actor_key : CausalActor → Str × ℕ
actor_key a = (a.node_id, a.incarnation)

pub actor_key-injective : (x y : CausalActor) → actor_key x ≡ actor_key y → x ≡ y
actor_key-injective x y h = ground arith

instance unfoldable pub actor_ord : Ord CausalActor
unfolding pair_ord list_ord nat_ord
actor_ord = record {
  cmp = λ x y. pair_ord.cmp (actor_key x) (actor_key y);
  total = key_cmp-IsTotal actor_key actor_key-injective;
}

pub record Dot : Type 0 where
  pub actor : CausalActor
  pub counter : ℕ

-- `Dot(actor, counter)`
unfoldable pub make_dot : CausalActor → ℤ → Result Dot
make_dot actor (negsuc n) = raise value_error
make_dot actor (pos zero) = raise value_error
make_dot actor (pos (suc n)) = ok (record { actor = actor; counter = suc n })

abbrev pub dot_key : Dot → CausalActor × ℕ
dot_key d = (d.actor, d.counter)

pub dot_key-injective : (x y : Dot) → dot_key x ≡ dot_key y → x ≡ y
dot_key-injective x y h = ground arith

instance unfoldable pub dot_ord : Ord Dot
unfolding pair_ord actor_ord nat_ord
dot_ord = record {
  cmp = λ x y. pair_ord.cmp (dot_key x) (dot_key y);
  total = key_cmp-IsTotal dot_key dot_key-injective;
}
